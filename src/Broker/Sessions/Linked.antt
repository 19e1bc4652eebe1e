-- ===== src/Broker/Sessions/Linked.antt =====
-- broker/memory.go, the sessions' cache: entries and deadlines belong to one another, seen as a map
-- from session ids to data and deadline.
use anycable.Prelude.{
  ℕ, ◌+◌, ◌*◌, ◌≡◌, inl, inr, Option, none, some, String, string_eq, ◌==◌, if◌then◌else◌, arith,
  nat_beq, refl, Option-cases, Bool-cases,
}
use anycable.Prelude.Dict.{lookup, insert, lookup-insert, insert_same}
use anycable.Utils.PriorityQueue.{PriorityQueue, push_item}
use anycable.Utils.PriorityQueue.View.{find}
use anycable.Utils.PriorityQueue.Laws.{IsHeap, push_item_lem, update_lem}
use anycable.Broker.Outcome.{Outcome, ok}
use anycable.Broker.Sessions.{SessionEntry, SessionsCache, commit_session, touch_session}

pub record IsLinked (b : SessionsCache) : Type 0 where
  pub heap : IsHeap b.expire_sessions
  pub deadlines :
      (sid : String) (entry : SessionEntry)
      → lookup sid b.sessions ≡ some entry
      → (deadline : ℕ) × (find b.expire_sessions entry.expiration ≡ some (sid, deadline))
  pub entries :
      (item : ℕ) (x : String × ℕ)
      → find b.expire_sessions item ≡ some x
      → (entry : SessionEntry) × (lookup x.0 b.sessions ≡ some entry) × (entry.expiration ≡ item)

-- The data and the deadline kept for a session.
unfoldable pub cached : SessionsCache → String → Option (String × ℕ)
cached b sid = elim (lookup sid b.sessions) [
  | none ↦ none
  | some entry ↦ elim (find b.expire_sessions entry.expiration) [
    | none ↦ none
    | some (id, deadline) ↦ some (entry.payload, deadline)
  ]
]

pub cached_missing :
    (b : SessionsCache) (sid : String) → lookup sid b.sessions ≡ none → cached b sid ≡ none
unfolding cached
cached_missing b sid e = rw (e, cached) refl

pub cached_stored :
    (b : SessionsCache) (sid id : String) (entry : SessionEntry) (deadline : ℕ)
    → lookup sid b.sessions ≡ some entry
    → find b.expire_sessions entry.expiration ≡ some (id, deadline)
    → cached b sid ≡ some (entry.payload, deadline)
unfolding cached
cached_stored b sid id entry deadline e f = rw (e, cached, f) refl

-- An operation returns, and leaves `kept` cached.
pub record Leaves (b : SessionsCache) (kept : String → Option (String × ℕ))
    (result : Outcome SessionsCache) : Type 0 where
  pub after : SessionsCache
  pub returned : result ≡ ok after
  pub linked : IsLinked after
  pub lifetime : after.sessions_ttl ≡ b.sessions_ttl
  pub keeps : (sid : String) → cached after sid ≡ kept sid

-- The queue's item `a` is of no session but `sid`, which has no other.
record IsOwn (b : SessionsCache) (sid : String) (a : ℕ) : Type 0 where
  alone :
      (other : String) (entry : SessionEntry)
      → lookup other b.sessions ≡ some entry
      → entry.expiration ≡ a
      → other ≡ sid
  own : (entry : SessionEntry) → lookup sid b.sessions ≡ some entry → entry.expiration ≡ a

fresh-IsOwn :
    (b : SessionsCache) (sid : String) (a : ℕ)
    → IsLinked b
    → lookup sid b.sessions ≡ none
    → find b.expire_sessions a ≡ none
    → IsOwn b sid a
fresh-IsOwn b sid a v e f = record {
  alone = λ other entry h at. absurd (ground (arith, (v.deadlines other entry h).1, f));
  own = λ entry h. absurd (ground (arith, e));
}

stored-IsOwn :
    (b : SessionsCache) (sid : String) (entry : SessionEntry)
    → IsLinked b
    → lookup sid b.sessions ≡ some entry
    → IsOwn b sid entry.expiration
stored-IsOwn b sid entry v e = record {
  alone = λ other entry' h at.
      ground (arith, (v.deadlines other entry' h).1, (v.deadlines sid entry e).1);
  own = λ entry' h. ground (arith, e);
}

-- The entry and the deadline of one session written, at the item `a` of its own.
module _ (b : SessionsCache) (sid payload : String) (a deadline : ℕ)
    (queue : PriorityQueue String) where
  abbrev written : SessionsCache
  written = record b {
    sessions = insert sid (record { payload = payload; expiration = a }) b.sessions;
    expire_sessions = queue;
  }

  lookup-written :
      (other : String)
      → lookup other written.sessions ≡ (
          if sid == other
          then some (record { payload = payload; expiration = a })
          else lookup other b.sessions)
  lookup-written other =
      lookup-insert sid other (record { payload = payload; expiration = a }) b.sessions

  module _ (v : IsLinked b) (heap : IsHeap queue)
      (finds : (item : ℕ)
        → find queue item
          ≡ (if nat_beq item a then some (sid, deadline) else find b.expire_sessions item))
      (its : IsOwn b sid a) where
    written-deadlines :
        (other : String) (entry : SessionEntry)
        → lookup other written.sessions ≡ some entry
        → (d : ℕ) × (find queue entry.expiration ≡ some (other, d))
    written-deadlines other entry h = elim (Bool-cases (sid == other)) [
      | (inl e) ↦ (
        deadline,
        ground (arith, lookup-written other, finds entry.expiration, string_eq.beq_iff sid other),
      )
      | (inr e) ↦
          let old : lookup other b.sessions ≡ some entry = ground (arith, lookup-written other) in
          let (d, found) = v.deadlines other entry old in
          (
            d,
            ground (
              arith,
              finds entry.expiration,
              its.alone other entry old,
              string_eq.beq_iff sid other,
            ),
          )
    ]

    written-entries :
        (item : ℕ) (x : String × ℕ)
        → find queue item ≡ some x
        → (entry : SessionEntry) × (lookup x.0 written.sessions ≡ some entry)
          × (entry.expiration ≡ item)
    written-entries item x h = elim (Bool-cases (nat_beq item a)) [
      | (inl e) ↦ (
        record { payload = payload; expiration = a },
        ground (arith, finds item, lookup-written x.0, string_eq.beq_iff sid x.0),
        ground arith,
      )
      | (inr e) ↦
          let (entry, old, at) = v.entries item x (ground (arith, finds item)) in
          (entry, ground (arith, lookup-written x.0, string_eq.beq_iff sid x.0, its.own entry), at)
    ]

    written-IsLinked : IsLinked written
    written-IsLinked = record {
      heap = heap;
      deadlines = written-deadlines;
      entries = written-entries;
    }

    cached-written :
        (other : String)
        → cached written other ≡ (if sid == other then some (payload, deadline) else cached b other)
    unfolding cached
    cached-written other = elim (Bool-cases (sid == other)) [
      | (inl e) ↦ ground (arith, e, lookup-written other, finds a)
      | (inr e) ↦ elim (Option-cases (lookup other b.sessions)) [
        | (inl f) ↦ ground (arith, e, lookup-written other, f)
        | (inr (entry, f)) ↦ ground (
          arith,
          lookup-written other,
          f,
          finds entry.expiration,
          its.alone other entry f,
          string_eq.beq_iff sid other,
        )
      ]
    ]

-- Committing a session never panics, keeps entries and deadlines together, and stores its data until
-- the session's time to live from now has passed, whether it was stored before or not; every other
-- session keeps what was stored.
pub commit_session-stored :
    (now : ℕ) (b : SessionsCache) (sid payload : String)
    → IsLinked b
    → Leaves b
        (λ other.
          if sid == other then some (payload, now + b.sessions_ttl * 1000) else cached b other)
        (commit_session now b sid (some payload))
unfolding commit_session
commit_session-stored now b sid payload v =
    let deadline = now + b.sessions_ttl * 1000 in
    elim (Option-cases (lookup sid b.sessions)) [
      | (inl e) ↦
          let (heap, fresh, finds) = push_item_lem b.expire_sessions sid deadline v.heap in
          let (queue, a) = push_item b.expire_sessions sid deadline in
          let its = fresh-IsOwn b sid a v e fresh in
          record {
            after = written b sid payload a deadline queue;
            returned = rw (e, commit_session) refl;
            linked = written-IsLinked b sid payload a deadline queue v heap finds its;
            lifetime = refl;
            keeps = cached-written b sid payload a deadline queue v heap finds its;
          }
      | (inr (old, e)) ↦
          let a = old.expiration in
          let (d, at) = v.deadlines sid old e in
          let (queue, updated, heap, finds) =
            update_lem b.expire_sessions a deadline (sid, d) v.heap at in
          let its = stored-IsOwn b sid old v e in
          record {
            after = written b sid payload a deadline queue;
            returned = rw (e, commit_session, updated) refl;
            linked = written-IsLinked b sid payload a deadline queue v heap finds its;
            lifetime = refl;
            keeps = cached-written b sid payload a deadline queue v heap finds its;
          }
    ]

-- A cached session with another deadline.
abbrev pub with_deadline : ℕ → Option (String × ℕ) → Option (String × ℕ)
with_deadline deadline none = none
with_deadline deadline (some (payload, old)) = some (payload, deadline)

-- Touching a session never panics: the deadline of a stored session becomes its time to live from
-- now, with its data and every other session kept, and an unknown session changes nothing.
pub touch_session-renews :
    (now : ℕ) (b : SessionsCache) (sid : String)
    → IsLinked b
    → Leaves b
        (λ other.
          if sid == other
          then with_deadline (now + b.sessions_ttl * 1000) (cached b other)
          else cached b other)
        (touch_session now b sid)
unfolding touch_session
touch_session-renews now b sid v =
    let deadline = now + b.sessions_ttl * 1000 in
    elim (Option-cases (lookup sid b.sessions)) [
      | (inl e) ↦ record {
        after = b;
        returned = rw (e, touch_session) refl;
        linked = v;
        lifetime = refl;
        keeps = λ other. ground (arith, cached_missing b sid e, string_eq.beq_iff sid other);
      }
      | (inr (old, e)) ↦
          let a = old.expiration in
          let (d, at) = v.deadlines sid old e in
          let (queue, updated, heap, finds) =
            update_lem b.expire_sessions a deadline (sid, d) v.heap at in
          let its = stored-IsOwn b sid old v e in
          let same = insert_same sid old b.sessions e in
          let view = cached-written b sid old.payload a deadline queue v heap finds its in
          record {
            after = written b sid old.payload a deadline queue;
            returned = rw (e, touch_session, updated, same) refl;
            linked = written-IsLinked b sid old.payload a deadline queue v heap finds its;
            lifetime = refl;
            keeps = λ other. ground (
              arith,
              view other,
              cached_stored b sid sid old d e at,
              string_eq.beq_iff sid other,
            );
          }
    ]
