-- ===== src/Broker/Presence/Entries.antt =====
-- The list of sessions of one presence entry (broker/memory.go, `presenceEntry`): none twice, and
-- what its two methods do to membership.
use anycable.Prelude.{
  ◌≡◌, refl, true, false, not, ◌&&◌, ◌||◌, List, [], ◌∷◌, ◌++◌, String, string_eq, ◌==◌, contains,
  arith,
}
use anycable.Prelude.Dict.{is_empty}
use anycable.Broker.Presence.{PresenceEntry, remove_first, remove, add}

-- No session twice.
abbrev pub Once : List String → Type 0
Once [] = Unit {0}
Once (s ∷ ss) = (contains s ss ≡ false) × Once ss

contains-append_one :
    (x s : String) (ss : List String) → contains x (ss ++ s ∷ []) ≡ s == x || contains x ss
unfolding contains
contains-append_one x s [] = refl
contains-append_one x s (t ∷ ss) = ground (arith, contains-append_one x s ss)

append_one-Once :
    (s : String) (ss : List String) → contains s ss ≡ false → Once ss → Once (ss ++ s ∷ [])
unfolding contains
append_one-Once s [] h o = (refl, tt)
append_one-Once s (t ∷ ss) h o = ground (
  arith,
  append_one-Once s ss,
  contains-append_one t s ss,
  string_eq.beq_iff t s,
  string_eq.beq_iff s t,
)

contains-remove_first :
    (x s : String) (ss : List String)
    → Once ss
    → contains x (remove_first s ss) ≡ not (s == x) && contains x ss
unfolding contains remove_first
contains-remove_first x s [] o = ground arith
contains-remove_first x s (t ∷ ss) o = ground (
  arith,
  contains-remove_first x s ss o.1,
  string_eq.beq_iff t s,
  string_eq.beq_iff s x,
  string_eq.beq_iff t x,
)

remove_first-Once : (s : String) (ss : List String) → Once ss → Once (remove_first s ss)
unfolding remove_first
remove_first-Once s [] o = tt
remove_first-Once s (t ∷ ss) o =
    ground (arith, remove_first-Once s ss o.1, contains-remove_first t s ss o.1)

is_empty-contains : (x : String) (ss : List String) → contains x ss ≡ true → is_empty ss ≡ false
unfolding contains
is_empty-contains x [] h = ground arith
is_empty-contains x (s ∷ ss) h = refl

-- A list that is not empty has someone.
pub someone : (ss : List String) → is_empty ss ≡ false → (u : String) × (contains u ss ≡ true)
unfolding contains
someone [] h = cc
someone (s ∷ ss) h = (s, ground (arith, string_eq.beq_iff s s))

module _ {Info : Type 0} where
  abbrev pub IsEntry : PresenceEntry Info → Type 0
  IsEntry pe = Once pe.sessions × (is_empty pe.sessions ≡ false)

  pub contains-add :
      (x s : String) (info : Info) (pe : PresenceEntry Info)
      → contains x (add pe s info).sessions ≡ s == x || contains x pe.sessions
  unfolding add
  contains-add x s info pe =
      ground (arith, contains-append_one x s pe.sessions, string_eq.beq_iff s x)

  pub add-IsEntry :
      (s : String) (info : Info) (pe : PresenceEntry Info)
      → Once pe.sessions
      → IsEntry (add pe s info)
  unfolding add contains
  add-IsEntry s info pe o = ground (
    arith,
    append_one-Once s pe.sessions,
    is_empty-contains s pe.sessions,
    is_empty-contains s (pe.sessions ++ s ∷ []),
    contains-append_one s s pe.sessions,
    string_eq.beq_iff s s,
  )

  pub contains-remove :
      (x s : String) (pe : PresenceEntry Info)
      → Once pe.sessions
      → contains x (remove pe s).0.sessions ≡ not (s == x) && contains x pe.sessions
  unfolding remove
  contains-remove x s pe o =
      ground (arith, contains-remove_first x s pe.sessions o, string_eq.beq_iff s x)

  -- What is left is an entry again, unless nobody is left.
  pub remove-IsEntry :
      (s : String) (pe : PresenceEntry Info)
      → IsEntry pe
      → Once (remove pe s).0.sessions × (is_empty (remove pe s).0.sessions ≡ (remove pe s).1)
  unfolding remove
  remove-IsEntry s pe (o, n) = ground (arith, remove_first-Once s pe.sessions o)
