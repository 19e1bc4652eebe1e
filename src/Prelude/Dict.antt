-- ===== src/Prelude/Dict.antt =====
-- Go maps as association lists: an update in place or at the end, and a removal of every entry
-- with the key, so that the laws below need no side condition.
use anycable.Prelude.Tests.{if◌then◌else◌, is_some}
use anycable.Prelude.Classes.{Eq, ◌==◌}
use mathlib.Core.Path.{◌≡◌, refl}
use mathlib.Core.Logic.{◌≢◌}
use mathlib.Core.Bool.{Bool, true, false}
use mathlib.Core.List.{List, [], ◌∷◌, map}
use mathlib.Core.Option.{Option, none, some}
use native.Mathlib.Omega.{arith}

abbrev pub Dict : Type 0 → Type 0 → Type 0
Dict K V = List (K × V)

module _ {K V : Type 0} ⦃e : Eq K⦄ where
  unfoldable pub lookup : K → Dict K V → Option V
  lookup k [] = none
  lookup k ((j, v) ∷ m) = if j == k then some v else lookup k m

  unfoldable pub insert : K → V → Dict K V → Dict K V
  insert k v [] = (k, v) ∷ []
  insert k v ((j, w) ∷ m) = if j == k then (k, v) ∷ m else (j, w) ∷ insert k v m

  unfoldable pub delete : K → Dict K V → Dict K V
  delete k [] = []
  delete k ((j, w) ∷ m) = let rest = delete k m in if j == k then rest else (j, w) ∷ rest

  abbrev pub has : K → Dict K V → Bool
  has k m = is_some (lookup k m)

  pub lookup-insert :
      (k sought : K) (new : V) (m : Dict K V)
      → lookup sought (insert k new m) ≡ (if k == sought then some new else lookup sought m)
  unfolding lookup insert
  lookup-insert k sought new [] = refl
  lookup-insert k sought new ((first, old) ∷ others) = ground (
    arith,
    e.beq_iff k sought,
    e.beq_iff first k,
    e.beq_iff first sought,
    lookup-insert k sought new others,
  )

  pub lookup-delete :
      (k j : K) (m : Dict K V) → lookup j (delete k m) ≡ (if k == j then none else lookup j m)
  unfolding lookup delete
  lookup-delete k j [] = ground arith
  lookup-delete k j ((i, w) ∷ m) =
      ground (arith, e.beq_iff k j, e.beq_iff i k, e.beq_iff i j, lookup-delete k j m)

  pub insert_same : (k : K) (v : V) (m : Dict K V) → lookup k m ≡ some v → insert k v m ≡ m
  unfolding lookup insert
  insert_same k v [] h = cc
  insert_same k v ((i, w) ∷ m) h = ground (arith, insert_same k v m, e.beq_iff i k)

  pub insert-ne-nil : (k : K) (v : V) (m : Dict K V) → insert k v m ≢ []
  unfolding insert
  insert-ne-nil k v [] h = cc
  insert-ne-nil k v ((i, w) ∷ m) h = ground arith

  -- No key twice.
  abbrev pub Distinct : Dict K V → Type 0
  Distinct [] = Unit {0}
  Distinct ((k, v) ∷ m) = (lookup k m ≡ none) × Distinct m

  pub insert-Distinct : (k : K) (v : V) (m : Dict K V) → Distinct m → Distinct (insert k v m)
  unfolding insert lookup
  insert-Distinct k v [] d = (refl, tt)
  insert-Distinct k v ((i, w) ∷ m) d =
      ground (arith, insert-Distinct k v m d.1, lookup-insert k i v m, e.beq_iff i k, e.beq_iff k i)

  pub delete-Distinct : (k : K) (m : Dict K V) → Distinct m → Distinct (delete k m)
  unfolding delete
  delete-Distinct k [] d = tt
  delete-Distinct k ((i, w) ∷ m) d = ground (arith, delete-Distinct k m d.1, lookup-delete k i m)

  pub delete_absent : (k : K) (m : Dict K V) → lookup k m ≡ none → delete k m ≡ m
  unfolding lookup delete
  delete_absent k [] h = refl
  delete_absent k ((i, w) ∷ m) h = ground (arith, delete_absent k m)

  -- A map from which every key is missing has no entry.
  pub lookup_nothing : (m : Dict K V) → ((k : K) → lookup k m ≡ none) → m ≡ []
  unfolding lookup
  lookup_nothing [] h = refl
  lookup_nothing ((i, w) ∷ m) h = let t = h i in ground (arith, t, e.beq_iff i i)

abbrev pub keys : {K V : Type 0} → Dict K V → List K
keys = map (λ e. e.0)

abbrev pub is_empty : {A : Type 0} → List A → Bool
is_empty [] = true
is_empty (x ∷ xs) = false
