-- ===== src/Tests/PresenceRuns.antt =====
-- Presence in one stream: "a" and "b" are there under the id "p", "c" under "q".
use anycable.Prelude.{
  ◌≡◌, refl, not, ◌&&◌, ◌||◌, ◌⊎◌, true, false, none, some, if◌then◌else◌, String, string_eq, ◌==◌,
}
use anycable.Prelude.Dict.{lookup, insert}
use anycable.Broker.Presence.{
  PresenceState, new_presence_state, presence_add, presence_remove, mismatch,
}
use anycable.Broker.Presence.Presents.{
  IsConsistent, registered, present, new_presence_state-IsConsistent,
}
use anycable.Broker.Presence.Joins.{Answered, presence_add_lem, presence_add-IsConsistent}
use anycable.Broker.Presence.Leaves.{presence_remove_lem}
use anycable.Broker.Presence.Events.{presence_remove-event}
use anycable.Broker.Outcome.{ok}
use anycable.Prelude.Dict.{Distinct}
use anycable.Broker.Presence.Sweep.{expire_presence}
use anycable.Broker.Presence.Expiry.{overdue, expire_presence-present}

abbrev two : PresenceState String
two = (presence_add 2 15 (presence_add 1 15 new_presence_state "s" "a" "p" "x").0 "s" "b" "p" "y").0

two-IsConsistent : IsConsistent two
two-IsConsistent =
    presence_add-IsConsistent 2 15 _ "s" "b" "p" "y"
      (presence_add-IsConsistent 1 15 _ "s" "a" "p" "x" new_presence_state-IsConsistent)

presence_add_lem_example :
    Answered 3 15 two "s" "c" "q" "z"
    × ((t q u : String)
        → present (presence_add 3 15 two "s" "c" "q" "z").0 t q u
          ≡ (not (mismatch (registered two.sessions "c" "s") "q")
              && (("s" == t) && (("q" == q) && ("c" == u))))
            || present two t q u)
    × ((u t : String)
        → registered (presence_add 3 15 two "s" "c" "q" "z").0.sessions u t ≡ (
            if not (mismatch (registered two.sessions "c" "s") "q") && (("c" == u) && ("s" == t))
            then some "q"
            else registered two.sessions u t))
presence_add_lem_example = presence_add_lem 3 15 two "s" "c" "q" "z" two-IsConsistent

presence_remove_lem_example :
    (present (presence_remove two "s" "a").0 "s" "p" "a"
      ≡ not (◌==◌ {A = String} "s" "s" && ◌==◌ {A = String} "a" "a") && present two "s" "p" "a")
    × (registered (presence_remove two "s" "a").0.sessions "a" "s" ≡ (
        if ◌==◌ {A = String} "s" "s" && ◌==◌ {A = String} "a" "a"
        then none
        else registered two.sessions "a" "s"))
presence_remove_lem_example = presence_remove_lem two "s" "a" two-IsConsistent "s" "p" "a"

known : registered two.sessions "b" "s" ≡ some "p"
unfolding registered presence_add lookup insert
known = refl

presence_remove-event_example :
    (((presence_remove two "s" "b").1
        ≡ ok (some (record { event_type = "leave"; id = "p"; info = none })))
      × ((u : String) → present (presence_remove two "s" "b").0 "s" "p" u ≡ false))
    ⊎ (((presence_remove two "s" "b").1 ≡ ok none)
        × ((u : String) × (present (presence_remove two "s" "b").0 "s" "p" u ≡ true)))
presence_remove-event_example = presence_remove-event two "s" "b" "p" two-IsConsistent known

two-Distinct : Distinct two.sessions
unfolding presence_add lookup insert
two-Distinct = (refl, (refl, tt))

expire_presence-present_example :
    IsConsistent (expire_presence 15002 two).0
    × ((t q u : String)
        → present (expire_presence 15002 two).0 t q u
          ≡ not (overdue 15002 (lookup u two.sessions)) && present two t q u)
expire_presence-present_example = expire_presence-present 15002 two two-IsConsistent two-Distinct
