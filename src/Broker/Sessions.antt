-- ===== src/Broker/Sessions.antt =====
-- broker/memory.go, the sessions' cache of `Memory`: the entries by session id, and the priority
-- queue of their deadlines, which an entry points into. The clock is an argument, in milliseconds.
-- `cached` is what the session's ToCacheEntry gave, `none` when that failed. The loop of
-- `expireSessionsCache` gets one round more than there are deadlines.
pub mod Linked
pub mod Expiry
pub mod Refine
use anycable.Prelude.{
  ℕ, zero, suc, ◌+◌, ◌*◌, Bool, true, false, Option, none, some, List, [], ◌∷◌, String, string_eq,
  if◌then◌else◌, ltb,
}
use anycable.Prelude.Dict.{Dict, lookup, insert, delete}
use anycable.Utils.PriorityQueue
use anycable.Utils.PriorityQueue.{
  PriorityQueue, PriorityQueueItem, len, new_priority_queue, push_item, pop_item, peek,
}
use anycable.Broker.Outcome.{Outcome, ok, err, panic, ◌>>=◌, session_not_encoded}

-- `expiration` is the address of the queue's item.
pub record SessionEntry : Type 0 where
  pub payload : String
  pub expiration : ℕ

pub record SessionsCache : Type 0 where
  pub sessions : Dict String SessionEntry
  pub expire_sessions : PriorityQueue String
  pub sessions_ttl : ℕ

abbrev pub new_sessions_cache : ℕ → SessionsCache
new_sessions_cache ttl = record {
  sessions = [];
  expire_sessions = new_priority_queue "";
  sessions_ttl = ttl;
}

abbrev pub or_panic : {A : Type 0} → Option A → Outcome A
or_panic none = panic
or_panic (some a) = ok a

unfoldable pub commit_session : ℕ → SessionsCache → String → Option String → Outcome SessionsCache
commit_session now b sid none = err session_not_encoded
commit_session now b sid (some cached) =
    let deadline = now + b.sessions_ttl * 1000 in
    elim (lookup sid b.sessions) [
      | none ↦
          let (queue, expiration) = push_item b.expire_sessions sid deadline in
          let entry : SessionEntry = record { payload = cached; expiration = expiration } in
          ok (record b { sessions = insert sid entry b.sessions; expire_sessions = queue })
      | some old ↦ (do
        queue ← or_panic (PriorityQueue.update b.expire_sessions old.expiration deadline)
        let entry : SessionEntry = record { payload = cached; expiration = old.expiration }
        ok (record b { sessions = insert sid entry b.sessions; expire_sessions = queue }))
    ]

unfoldable pub restore_session : SessionsCache → String → Option String
restore_session b sid = elim (lookup sid b.sessions) [
  | none ↦ none
  | some entry ↦ some entry.payload
]

unfoldable pub touch_session : ℕ → SessionsCache → String → Outcome SessionsCache
touch_session now b sid = elim (lookup sid b.sessions) [
  | none ↦ ok b
  | some entry ↦ (do
    let deadline = now + b.sessions_ttl * 1000
    queue ← or_panic (PriorityQueue.update b.expire_sessions entry.expiration deadline)
    ok (record b { expire_sessions = queue }))
]

unfoldable pub expire_loop : ℕ → ℕ → SessionsCache → Outcome SessionsCache
expire_loop now zero b = ok b
expire_loop now (suc rounds) b = elim (peek b.expire_sessions) [
  | none ↦ ok b
  | some item ↦
      if ltb now (PriorityQueueItem.priority (b.expire_sessions.items item))
      then ok b
      else elim (pop_item b.expire_sessions) [
        | none ↦ panic
        | some popped ↦
            let sid = PriorityQueueItem.value (b.expire_sessions.items item) in
            expire_loop now rounds
              (record b { sessions = delete sid b.sessions; expire_sessions = popped.0 })
      ]
]

unfoldable pub expire_sessions_cache : ℕ → SessionsCache → Outcome SessionsCache
unfolding expire_loop
expire_sessions_cache now b = expire_loop now (len b.expire_sessions + 1) b
