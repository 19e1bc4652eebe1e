-- ===== src/Utils/Queue/Ring.antt =====
-- Cyclic windows of an array: how the live slots of the ring buffer read as a list.
use native.Mathlib.Nat.{mod-eq_of_lt, mod-eq-sub-mod}
use anycable.Prelude.{
  ℕ, zero, suc, ◌+◌, ◌-◌, ◌%◌, ◌≤◌, ◌<◌, ◌≡◌, refl, ap, ◌∙◌, List, [], ◌∷◌, ◌++◌, some, length,
  get_or, get_elem?, set, take, drop, ltb, if◌then◌else◌, arith, length-set, get_or-set_ne,
  Bool-cases, inl, inr,
}
use anycable.Utils.Queue.{set?}

-- An index that has run past the end at most once.
abbrev pub wrap : ℕ → ℕ → ℕ
wrap i n = if ltb i n then i else i - n

pub mod-wrap : (i n : ℕ) → i < n + n → i % n ≡ wrap i n
mod-wrap i n h = elim (Bool-cases (ltb i n)) [
  | inl e ↦ rw e (mod-eq_of_lt (ground arith))
  | inr e ↦ rw e (mod-eq-sub-mod (ground arith) ∙ mod-eq_of_lt (ground arith))
]

module _ {A : Type 0} where
  pub set?-set : (xs : List A) (i : ℕ) (v : A) → i < length xs → set? xs i v ≡ some (set xs i v)
  unfolding set?
  set?-set [] i v h = absurd (omega arith)
  set?-set (x ∷ xs) zero v h = refl
  set?-set (x ∷ xs) (suc i) v h = rw (set?-set xs i v (omega arith))

  pub get_elem?-get_or :
      (xs : List A) (i : ℕ) (d : A) → i < length xs → get_elem? xs i ≡ some (get_or xs i d)
  get_elem?-get_or [] i d h = absurd (omega arith)
  get_elem?-get_or (x ∷ xs) zero d h = refl
  get_elem?-get_or (x ∷ xs) (suc i) d h = get_elem?-get_or xs i d (omega arith)

  drop_step :
      (xs : List A) (h : ℕ) (d : A) → h < length xs → drop h xs ≡ get_or xs h d ∷ drop (h + 1) xs
  drop_step [] h d p = absurd (omega arith)
  drop_step (x ∷ xs) zero d p = refl
  drop_step (x ∷ xs) (suc h) d p =
      let e : suc h + 1 ≡ suc (h + 1) = omega arith in rw e (drop_step xs h d (omega arith))

module _ {A : Type 0} (d : A) where
  -- The `c` slots from `h` on, in cyclic order.
  unfoldable pub window : List A → ℕ → ℕ → List A
  window ns h zero = []
  window ns h (suc c) = get_or ns h d ∷ window ns (wrap (h + 1) (length ns)) c

  pub length-window : (ns : List A) (h c : ℕ) → length (window ns h c) ≡ c
  unfolding window
  length-window ns h zero = refl
  length-window ns h (suc c) = ap suc (length-window ns (wrap (h + 1) (length ns)) c)

  pub window-append :
      (ns : List A) (h a b : ℕ)
      → h < length ns
      → a ≤ length ns
      → window ns h (a + b) ≡ window ns h a ++ window ns (wrap (h + a) (length ns)) b
  unfolding window
  window-append ns h zero b h1 h2 =
      let e : wrap (h + 0) (length ns) ≡ h = ground arith in
      let e' : 0 + b ≡ b = omega arith in rw (e, e')
  window-append ns h (suc a) b h1 h2 =
      let next = wrap (h + 1) (length ns) in
      let e : suc a + b ≡ suc (a + b) = omega arith in
      let f : wrap (next + a) (length ns) ≡ wrap (h + suc a) (length ns) = ground arith in
      rw e (
        ap (◌∷◌ (get_or ns h d)) (rw f at (window-append ns next a b (ground arith) (omega arith))))

  -- A window that does not wrap is a slice.
  pub window_flat : (ns : List A) (h c : ℕ) → h + c ≤ length ns → window ns h c ≡ take c (drop h ns)
  unfolding window
  window_flat ns h zero h1 = refl
  window_flat ns h (suc zero) h1 = rw (drop_step ns h d (omega arith))
  window_flat ns h (suc (suc c)) h1 =
      let e : wrap (h + 1) (length ns) ≡ h + 1 = ground arith in
      rw (drop_step ns h d (omega arith))
        (rw e (ap (◌∷◌ (get_or ns h d)) (window_flat ns (h + 1) (suc c) (omega arith))))

  -- A write to a slot at distance `e` from `h`, past the window, leaves the window alone.
  pub window-set :
      (ns : List A) (h c e i : ℕ) (v : A)
      → h < length ns
      → c ≤ e
      → e < length ns
      → i ≡ wrap (h + e) (length ns)
      → window (set ns i v) h c ≡ window ns h c
  unfolding window
  window-set ns h zero e i v h1 h2 h3 p = refl
  window-set ns h (suc c) e i v h1 h2 h3 p =
      let next = wrap (h + 1) (length ns) in
      let hd : get_or (set ns i v) h d ≡ get_or ns h d = get_or-set_ne ns i h v d (ground arith) in
      let tl : window (set ns i v) next c ≡ window ns next c =
        window-set ns next c (e - 1) i v (ground arith) (omega arith) (omega arith)
          (ground arith) in
      rw (length-set ns i v, hd, tl)
