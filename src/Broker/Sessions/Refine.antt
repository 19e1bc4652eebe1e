-- ===== src/Broker/Sessions/Refine.antt =====
-- broker/memory.go, the sessions' cache against what a broker promises of it: a map from session ids
-- to data and deadline, on which every operation is one line.
use anycable.Prelude.{
  ℕ, ◌+◌, ◌*◌, ◌≡◌, ◌∙◌, Option, none, some, List, [], ◌∷◌, String, string_eq, ◌==◌, if◌then◌else◌,
  arith, refl, ap, Option-cases, inl, inr,
}
use anycable.Prelude.Dict.{lookup}
use anycable.Utils.PriorityQueue.Laws.{new_priority_queue-IsHeap, find-new}
use anycable.Broker.Outcome.{Outcome, ok, ◌>>=◌}
use anycable.Broker.Sessions.{
  SessionsCache, new_sessions_cache, commit_session, touch_session, restore_session,
  expire_sessions_cache,
}
use anycable.Broker.Sessions.Linked.{
  IsLinked, Leaves, cached, cached_missing, cached_stored, with_deadline, commit_session-stored,
  touch_session-renews,
}
use anycable.Broker.Sessions.Expiry.{unexpired, expire_sessions_cache-expires}

-- What a broker is called with, at a time in milliseconds.
pub data CacheCall : Type 0 where
  commit : ℕ → String → String → CacheCall
  touch : ℕ → String → CacheCall
  expire : ℕ → CacheCall

unfoldable pub handle : CacheCall → SessionsCache → Outcome SessionsCache
unfolding expire_sessions_cache
handle (commit now sid payload) b = commit_session now b sid (some payload)
handle (touch now sid) b = touch_session now b sid
handle (expire now) b = expire_sessions_cache now b

unfoldable pub handle_all : List CacheCall → SessionsCache → Outcome SessionsCache
unfolding handle
handle_all [] b = ok b
handle_all (call ∷ calls) b = do b' ← handle call b; handle_all calls b'

abbrev pub SpecCache : Type 0
SpecCache = String → Option (String × ℕ)

abbrev pub promised : ℕ → CacheCall → SpecCache → SpecCache
promised ttl (commit now sid payload) m other =
    if sid == other then some (payload, now + ttl * 1000) else m other
promised ttl (touch now sid) m other =
    if sid == other then with_deadline (now + ttl * 1000) (m other) else m other
promised ttl (expire now) m other = unexpired now (m other)

abbrev pub promised_all : ℕ → List CacheCall → SpecCache → SpecCache
promised_all ttl [] m = m
promised_all ttl (call ∷ calls) m = promised_all ttl calls (promised ttl call m)

abbrev pub payload_of : Option (String × ℕ) → Option String
payload_of none = none
payload_of (some (payload, deadline)) = some payload

pub new_sessions_cache-IsLinked : (ttl : ℕ) → IsLinked (new_sessions_cache ttl)
unfolding lookup
new_sessions_cache-IsLinked ttl = record {
  heap = new_priority_queue-IsHeap "";
  deadlines = λ sid entry h. cc;
  entries = λ item x h. absurd (ground (arith, find-new {T = String} "" item, h));
}

-- `b` stands for the map `m`.
record Stands (ttl : ℕ) (b : SessionsCache) (m : SpecCache) : Type 0 where
  linked : IsLinked b
  lifetime : b.sessions_ttl ≡ ttl
  same : (sid : String) → cached b sid ≡ m sid

handle-Leaves :
    (call : CacheCall) (b : SessionsCache)
    → IsLinked b
    → Leaves b (promised b.sessions_ttl call (cached b)) (handle call b)
unfolding handle
handle-Leaves (commit now sid payload) b v = commit_session-stored now b sid payload v
handle-Leaves (touch now sid) b v = touch_session-renews now b sid v
handle-Leaves (expire now) b v = expire_sessions_cache-expires now b v

-- Maps that agree are changed alike.
promised_same :
    (ttl : ℕ) (call : CacheCall) (m m' : SpecCache)
    → ((sid : String) → m sid ≡ m' sid)
    → (sid : String) → promised ttl call m sid ≡ promised ttl call m' sid
promised_same ttl (commit now id payload) m m' same sid = ground (arith, same sid)
promised_same ttl (touch now id) m m' same sid = ground (arith, same sid)
promised_same ttl (expire now) m m' same sid = ap (unexpired now) (same sid)

handle_all-Stands :
    (ttl : ℕ) (calls : List CacheCall) (b : SessionsCache) (m : SpecCache)
    → Stands ttl b m
    → (after : SessionsCache) × (handle_all calls b ≡ ok after)
      × Stands ttl after (promised_all ttl calls m)
unfolding handle_all cached
handle_all-Stands ttl [] b m s = (b, refl, s)
handle_all-Stands ttl (call ∷ calls) b m s =
    let r = handle-Leaves call b s.linked in
    let (after, returned, stands) =
      handle_all-Stands ttl calls r.after (promised ttl call m) (record {
        linked = r.linked;
        lifetime = r.lifetime ∙ s.lifetime;
        same =
            λ sid. r.keeps sid ∙ (rw s.lifetime (promised_same ttl call (cached b) m s.same sid));
      }) in
    (after, rw (r.returned, handle_all) returned, stands)

restore_session-cached :
    (b : SessionsCache) (sid : String)
    → IsLinked b
    → restore_session b sid ≡ payload_of (cached b sid)
unfolding restore_session
restore_session-cached b sid v = elim (Option-cases (lookup sid b.sessions)) [
  | (inl e) ↦ rw (e, restore_session, cached_missing b sid e) refl
  | (inr (entry, e)) ↦
      let (d, at) = v.deadlines sid entry e in
      rw (e, restore_session, cached_stored b sid sid entry d e at) refl
]

-- Whatever sequence of commits, touches and expirations a new cache handles, none of them panics or
-- fails, and afterwards a session is restored with exactly the data that the map of data and
-- deadlines, changed by the same calls, keeps for it: the last committed, unless an expiration came
-- when the last commit or touch was at least the time to live ago.
pub handle_all-refines :
    (ttl : ℕ) (calls : List CacheCall)
    → (after : SessionsCache) × (handle_all calls (new_sessions_cache ttl) ≡ ok after)
      × ((sid : String)
          → restore_session after sid ≡ payload_of (promised_all ttl calls (λ id. none) sid))
unfolding lookup
handle_all-refines ttl calls =
    let (after, returned, s) =
      handle_all-Stands ttl calls (new_sessions_cache ttl) (λ id. none)
        (record {
          linked = new_sessions_cache-IsLinked ttl;
          lifetime = refl;
          same = λ sid. cached_missing (new_sessions_cache ttl) sid refl;
        }) in
    (after, returned, λ sid. restore_session-cached after sid s.linked ∙ ap payload_of (s.same sid))
