-- ===== src/Tests/CacheRuns.antt =====
-- The priority queue and the sessions' cache on it: sessions that are committed, touched and expired.
use anycable.Prelude.{
  ℕ, ◌+◌, ◌*◌, ◌≡◌, refl, Option, none, some, List, [], ◌∷◌, String, string_eq, ◌==◌, arith,
  if◌then◌else◌, nat_beq, contains,
}
use anycable.Prelude.Dict.{lookup, insert, delete}
use anycable.Utils.PriorityQueue
use anycable.Utils.PriorityQueue.{
  PriorityQueue, len, new_priority_queue, less, swap, up, down, settle, push, pop, push_item,
  pop_item, peek, remove,
}
use anycable.Utils.PriorityQueue.View.{find}
use anycable.Utils.PriorityQueue.Laws.{
  IsHeap, IsWithout, new_priority_queue-IsHeap, push_item_lem, pop_item_lem, update_lem,
}
use anycable.Broker.Outcome.{Outcome, ok}
use anycable.Broker.Sessions.{
  SessionsCache, new_sessions_cache, commit_session, touch_session, restore_session, expire_loop,
  expire_sessions_cache,
}
use anycable.Broker.Sessions.Linked.{Leaves, cached, commit_session-stored}
use anycable.Broker.Sessions.Expiry.{unexpired, expire_sessions_cache-expires}
use anycable.Broker.Sessions.Refine.{
  CacheCall, commit, touch, expire, handle, handle_all, promised_all, payload_of,
  new_sessions_cache-IsLinked, handle_all-refines,
}

program : Unit {0}
unfolding lookup insert delete contains less swap up down settle push pop push_item pop_item peek
    remove PriorityQueue.update find commit_session touch_session restore_session expire_loop
    expire_sessions_cache handle handle_all
program = tt

-- Two items, of which the second comes first.
abbrev two_items : PriorityQueue String
two_items = (push_item (push_item (new_priority_queue "") "late" 9).0 "soon" 4).0

two_items-IsHeap : IsHeap two_items
two_items-IsHeap =
    (push_item_lem (push_item (new_priority_queue "") "late" 9).0 "soon" 4
      (push_item_lem (new_priority_queue "") "late" 9 (new_priority_queue-IsHeap "")).0).0

-- How many items are left, and which was taken.
abbrev popped : Option (PriorityQueue String × ℕ) → Option (ℕ × ℕ)
popped none = none
popped (some (pq, a)) = some (len pq, a)

pop_two : popped (pop_item two_items) ≡ some (1, 1)
unfolding program
pop_two = refl

pop_item_lem_example :
    (a : ℕ) × (pq' : PriorityQueue String) × (pop_item two_items ≡ some (pq', a))
    × (peek two_items ≡ some a)
    × IsWithout two_items a pq'
unfolding program
pop_item_lem_example = pop_item_lem two_items two_items-IsHeap (omega arith)

update_lem_example :
    (pq' : PriorityQueue String) × (PriorityQueue.update two_items 0 1 ≡ some pq')
    × IsHeap pq'
    × ((b : ℕ) → find pq' b ≡ (if nat_beq b 0 then some ("late", 1) else find two_items b))
unfolding program
update_lem_example = update_lem two_items 0 1 ("late", 9) two_items-IsHeap refl

abbrev calls : List CacheCall
calls =
    commit 1000 "a" "x"
    ∷ commit 2000 "b" "y"
    ∷ touch 60000 "a"
    ∷ commit 60500 "a" "z"
    ∷ expire 62000
    ∷ []

-- What the sessions are restored with.
abbrev restored : Outcome SessionsCache → List (Option String)
restored (ok b) = restore_session b "a" ∷ restore_session b "b" ∷ []
restored _ = []

run_calls : restored (handle_all calls (new_sessions_cache 60)) ≡ some "z" ∷ none ∷ []
unfolding program
run_calls = refl

handle_all-refines_example :
    (after : SessionsCache) × (handle_all calls (new_sessions_cache 60) ≡ ok after)
    × ((sid : String)
        → restore_session after sid ≡ payload_of (promised_all 60 calls (λ id. none) sid))
handle_all-refines_example = handle_all-refines 60 calls

abbrev committed :
    Leaves
      (new_sessions_cache 60)
      (λ other.
        if "a" == other then some ("x", 1000 + 60 * 1000) else cached (new_sessions_cache 60) other)
      (commit_session 1000 (new_sessions_cache 60) "a" (some "x"))
committed =
    commit_session-stored 1000 (new_sessions_cache 60) "a" "x" (new_sessions_cache-IsLinked 60)

expire_sessions_cache-expires_example :
    Leaves committed.after
      (λ sid. unexpired 62000 (cached committed.after sid))
      (expire_sessions_cache 62000 committed.after)
expire_sessions_cache-expires_example =
    expire_sessions_cache-expires 62000 committed.after committed.linked
