-- ===== src/Broker/Sessions/Expiry.antt =====
-- broker/memory.go, `expireSessionsCache`: the loop over the deadlines takes out the sessions whose
-- deadline has come, and ends.
use anycable.Prelude.{
  ℕ, zero, suc, ◌+◌, ◌<◌, ◌≡◌, Option, none, some, String, string_eq, ◌==◌, if◌then◌else◌, arith,
  subst, ltb, refl, Option-cases, Bool-cases, inl, inr,
}
use anycable.Prelude.Dict.{lookup, delete, lookup-delete}
use anycable.Utils.PriorityQueue.{PriorityQueue, PriorityQueueItem, len, peek}
use anycable.Utils.PriorityQueue.View.{find}
use anycable.Utils.PriorityQueue.Laws.{IsWithout, pop_item_lem, peek-least, peek_found}
use anycable.Broker.Sessions.{SessionsCache, expire_loop, expire_sessions_cache}
use anycable.Broker.Sessions.Linked.{IsLinked, Leaves, cached, cached_missing, cached_stored}

-- A session whose deadline has not come.
abbrev pub unexpired : ℕ → Option (String × ℕ) → Option (String × ℕ)
unexpired now none = none
unexpired now (some (payload, deadline)) =
    if ltb now deadline then some (payload, deadline) else none

-- One session and the front of the queue taken out.
module _ (b : SessionsCache) (item : ℕ) (x : String × ℕ) (queue : PriorityQueue String)
    (v : IsLinked b) (found : find b.expire_sessions item ≡ some x)
    (without : IsWithout b.expire_sessions item queue) where
  abbrev taken : SessionsCache
  taken = record b { sessions = delete x.0 b.sessions; expire_sessions = queue }

  taken-IsLinked : IsLinked taken
  taken-IsLinked = record {
    heap = without.heap;
    deadlines = λ sid entry h.
        let kept : lookup sid b.sessions ≡ some entry =
          ground (arith, lookup-delete x.0 sid b.sessions) in
        let (d, at) = v.deadlines sid entry kept in
        (
          d,
          ground (
            arith,
            at,
            found,
            without.finds entry.expiration,
            lookup-delete x.0 sid b.sessions,
            string_eq.beq_iff x.0 sid,
          ),
        );
    entries = λ item' y h.
        let old : find b.expire_sessions item' ≡ some y = ground (arith, without.finds item') in
        let (entry, at, own) = v.entries item' y old in
        let (first, at', own') = v.entries item x found in
        (
          entry,
          ground (
            arith,
            at,
            at',
            own,
            own',
            h,
            without.finds item',
            lookup-delete x.0 y.0 b.sessions,
            string_eq.beq_iff x.0 y.0,
          ),
          own,
        );
  }

  cached-taken : (sid : String) → cached taken sid ≡ (if x.0 == sid then none else cached b sid)
  unfolding cached
  cached-taken sid = elim (Option-cases (lookup sid b.sessions)) [
    | (inl e) ↦ ground (arith, e, lookup-delete x.0 sid b.sessions)
    | (inr (entry, e)) ↦ ground (
      arith,
      e,
      lookup-delete x.0 sid b.sessions,
      without.finds entry.expiration,
      found,
      (v.deadlines sid entry e).1,
      string_eq.beq_iff x.0 sid,
    )
  ]

-- When every deadline is still to come, nothing is expired.
all_unexpired :
    (now : ℕ) (b : SessionsCache)
    → IsLinked b
    → ((item : ℕ) (x : String × ℕ) → find b.expire_sessions item ≡ some x → now < x.1)
    → (sid : String) → cached b sid ≡ unexpired now (cached b sid)
all_unexpired now b v later sid = elim (Option-cases (lookup sid b.sessions)) [
  | (inl e) ↦ rw (cached_missing b sid e) refl
  | (inr (entry, e)) ↦
      let (d, at) = v.deadlines sid entry e in
      let ahead = later entry.expiration (sid, d) at in
      rw (cached_stored b sid sid entry d e at) (ground arith)
]

expire_loop-expires :
    (now rounds : ℕ) (b : SessionsCache)
    → len b.expire_sessions < rounds
    → IsLinked b
    → Leaves b (λ sid. unexpired now (cached b sid)) (expire_loop now rounds b)
unfolding expire_loop
expire_loop-expires now zero b enough v = absurd (omega arith)
expire_loop-expires now (suc rounds) b enough v = elim (Option-cases (peek b.expire_sessions)) [
  | (inl e) ↦ record {
    after = b;
    returned = rw (e, expire_loop) refl;
    linked = v;
    lifetime = refl;
    keeps = λ sid.
        all_unexpired now b v
          (λ item x h. absurd (ground (arith, e, (peek-least b.expire_sessions item x v.heap h).2)))
          sid;
  }
  | (inr (item, e)) ↦
      let priority = PriorityQueueItem.priority (b.expire_sessions.items item) in
      let sid = PriorityQueueItem.value (b.expire_sessions.items item) in
      let (some_left, found) = peek_found b.expire_sessions item e in
      elim (Bool-cases (ltb now priority)) [
        | (inl f) ↦ record {
          after = b;
          returned = rw (e, expire_loop, f) refl;
          linked = v;
          lifetime = refl;
          keeps = λ sid.
              all_unexpired now b v
                (λ item' x h.
                  let (first, y, at, found', low) = peek-least b.expire_sessions item' x v.heap h in
                  ground (arith, found))
                sid;
        }
        | (inr f) ↦
            let (a, queue, popped, at, without) = pop_item_lem b.expire_sessions v.heap some_left in
            let same : a ≡ item = ground (arith, e) in
            let without' = subst (λ x. IsWithout b.expire_sessions x queue) same without in
            let (entry, stored, own) = v.entries item (sid, priority) found in
            let due = cached_stored b sid sid entry priority stored (ground (arith, own, found)) in
            let b' = taken b item (sid, priority) queue v found without' in
            let further =
              expire_loop-expires now rounds b' (omega (arith, without.size))
                (taken-IsLinked b item (sid, priority) queue v found without') in
            record {
              after = further.after;
              returned = rw (e, expire_loop, f, popped) further.returned;
              linked = further.linked;
              lifetime = further.lifetime;
              keeps = λ other.
                  rw
                    (
                      further.keeps other,
                      cached-taken b item (sid, priority) queue v found without' other,
                    )
                    (ground (arith, due, string_eq.beq_iff sid other));
            }
      ]
]

-- When entries and deadlines belong together, the loop over the deadlines ends and never panics,
-- keeps them together, and leaves the sessions whose deadline has not come, as they were, and no
-- others.
pub expire_sessions_cache-expires :
    (now : ℕ) (b : SessionsCache)
    → IsLinked b
    → Leaves b (λ sid. unexpired now (cached b sid)) (expire_sessions_cache now b)
unfolding expire_sessions_cache
expire_sessions_cache-expires now b v =
    expire_loop-expires now (len b.expire_sessions + 1) b (omega arith) v
