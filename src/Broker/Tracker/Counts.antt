-- ===== src/Broker/Tracker/Counts.antt =====
-- broker/broker.go: the tracker against plain counting, and what the broadcaster can conclude.
use anycable.Prelude.{
  uint64, ℕ, ◌+◌, ◌-◌, ◌%◌, ◌≤◌, ◌<◌, ◌≡◌, refl, Bool, true, false, none, some, List, [], ◌∷◌,
  nat_beq, if◌then◌else◌, String, arith, ◌==◌, string_eq, length, Option-cases, inl, inr, ltb,
}
use anycable.Prelude.Dict.{lookup, lookup-insert, lookup-delete}
use anycable.Broker.Tracker.{
  StreamsTracker, add, remove, Notice, subscribes, unsubscribes, Tracked, Request, subs, unsubs,
  handle, run,
}

-- How many uses of a stream are open.
abbrev pub uses : StreamsTracker → String → ℕ
uses store name = elim (lookup name store) [ none ↦ 0 | some n ↦ n ]

-- No entry stands at zero, and none is at the end of its range.
abbrev pub IsCounted : ℕ → StreamsTracker → Type 0
IsCounted bound store = (name : String) (n : ℕ) → lookup name store ≡ some n → (0 < n) × (n ≤ bound)

module _ (bound : ℕ) (store : StreamsTracker) (name other : String)
    (v : IsCounted bound store) where
  -- One more use, and no other stream is touched; the stream is new when it had none.
  pub add_lem :
      bound + 1 < uint64
      → (uses (add store name).0 other
          ≡ (if name == other then uses store name + 1 else uses store other))
        × ((add store name).1 ≡ nat_beq (uses store name) 0)
  unfolding add
  add_lem h = elim (Option-cases (lookup name store)) [
    | inl e ↦ ground (arith, e, lookup-insert name other 1 store, string_eq.beq_iff name other)
    | inr (n, e) ↦
        let m : (n + 1) % uint64 ≡ n + 1 = omega (arith, v name n e) in
        ground (
          arith,
          e,
          m,
          v name n e,
          lookup-insert name other ((n + 1) % uint64) store,
          string_eq.beq_iff name other,
        )
  ]

  -- One use less if there was one, and no other stream is touched; the last use is reported.
  pub remove_lem :
      bound < uint64
      → (uses (remove store name).0 other
          ≡ (if name == other then uses store name - 1 else uses store other))
        × ((remove store name).1 ≡ nat_beq (uses store name) 1)
  unfolding remove
  remove_lem h = elim (Option-cases (lookup name store)) [
    | inl e ↦ ground (arith, e, string_eq.beq_iff name other)
    | inr (n, e) ↦
        let m : (n + uint64 - 1) % uint64 ≡ n - 1 = omega (arith, v name n e) in
        ground (
          arith,
          e,
          m,
          v name n e,
          lookup-insert name other ((n + uint64 - 1) % uint64) store,
          lookup-delete name other store,
          string_eq.beq_iff name other,
        )
  ]

  add-IsCounted :
      bound + 1 < uint64
      → (n : ℕ) → lookup other (add store name).0 ≡ some n
      → (0 < n) × (n ≤ bound + 1)
  unfolding add
  add-IsCounted h n found = elim (Option-cases (lookup name store)) [
    | inl e ↦
        ground (arith, e, v other n, lookup-insert name other 1 store, string_eq.beq_iff name other)
    | inr (k, e) ↦
        let m : (k + 1) % uint64 ≡ k + 1 = omega (arith, v name k e) in
        ground (
          arith,
          e,
          m,
          v name k e,
          v other n,
          lookup-insert name other ((k + 1) % uint64) store,
          string_eq.beq_iff name other,
        )
  ]

  remove-IsCounted :
      bound < uint64 → (n : ℕ) → lookup other (remove store name).0 ≡ some n → (0 < n) × (n ≤ bound)
  unfolding remove
  remove-IsCounted h n found = elim (Option-cases (lookup name store)) [
    | inl e ↦ ground (arith, e, v other n)
    | inr (k, e) ↦
        let m : (k + uint64 - 1) % uint64 ≡ k - 1 = omega (arith, v name k e) in
        ground (
          arith,
          e,
          m,
          v name k e,
          v other n,
          lookup-insert name other ((k + uint64 - 1) % uint64) store,
          lookup-delete name other store,
          string_eq.beq_iff name other,
        )
  ]

-- The uses left open by requests, the latest first; one too many `unsubscribe` is ignored.
pub net : List Request → String → ℕ
net [] name = 0
net (subs s ∷ rs) name = if s == name then net rs name + 1 else net rs name
net (unsubs s ∷ rs) name = if s == name then net rs name - 1 else net rs name

-- What the broadcaster last heard of a stream.
pub listening : List Notice → String → Bool
listening [] name = false
listening (subscribes s ∷ ns) name = if s == name then true else listening ns name
listening (unsubscribes s ∷ ns) name = if s == name then false else listening ns name

-- No stream is subscribed twice, nor unsubscribed when it is not subscribed.
abbrev pub IsAlternating : List Notice → Type 0
IsAlternating [] = Unit {0}
IsAlternating (subscribes s ∷ ns) = (listening ns s ≡ false) × IsAlternating ns
IsAlternating (unsubscribes s ∷ ns) = (listening ns s ≡ true) × IsAlternating ns

pub record Agrees (rs : List Request) (b : Tracked) : Type 0 where
  pub counted : IsCounted (length rs) b.tracker
  pub uses_net : (name : String) → uses b.tracker name ≡ net rs name
  pub heard : (name : String) → listening b.told name ≡ ltb 0 (net rs name)
  pub alternating : IsAlternating b.told

handle-Agrees :
    (rs : List Request) (b : Tracked) (r : Request)
    → length rs + 1 < uint64
    → Agrees rs b
    → Agrees (r ∷ rs) (handle b r)
unfolding handle net listening
handle-Agrees rs b (subs s) h a = record {
  counted = λ name n e.
      let c = add-IsCounted (length rs) b.tracker s name a.counted h n e in (c.0, omega (arith, c));
  uses_net = λ name. ground (
    arith,
    add_lem (length rs) b.tracker s name a.counted h,
    a.uses_net name,
    a.uses_net s,
    string_eq.beq_iff s name,
  );
  heard = λ name. ground (
    arith,
    add_lem (length rs) b.tracker s name a.counted h,
    a.uses_net s,
    a.heard name,
    a.heard s,
    string_eq.beq_iff s name,
  );
  alternating = ground (
    arith,
    add_lem (length rs) b.tracker s s a.counted h,
    a.uses_net s,
    a.heard s,
    a.alternating,
  );
}
handle-Agrees rs b (unsubs s) h a = record {
  counted = λ name n e.
      let c = remove-IsCounted (length rs) b.tracker s name a.counted (omega arith) n e in
      (c.0, omega (arith, c));
  uses_net = λ name. ground (
    arith,
    remove_lem (length rs) b.tracker s name a.counted (omega arith),
    a.uses_net name,
    a.uses_net s,
    string_eq.beq_iff s name,
  );
  heard = λ name. ground (
    arith,
    remove_lem (length rs) b.tracker s name a.counted (omega arith),
    a.uses_net s,
    a.heard name,
    a.heard s,
    string_eq.beq_iff s name,
  );
  alternating = ground (
    arith,
    remove_lem (length rs) b.tracker s s a.counted (omega arith),
    a.uses_net s,
    a.heard s,
    a.alternating,
  );
}

-- After any sequence of fewer than 2^64 requests the tracker holds the open uses of every stream,
-- and the broadcaster was told to subscribe and unsubscribe in turn and listens exactly to the
-- streams that have open uses.
pub run-Agrees : (rs : List Request) → length rs < uint64 → Agrees rs (run rs)
unfolding run net listening lookup
run-Agrees [] h = record {
  counted = λ name n e. cc;
  uses_net = λ name. refl;
  heard = λ name. refl;
  alternating = tt;
}
run-Agrees (r ∷ rs) h = handle-Agrees rs (run rs) r (omega arith) (run-Agrees rs (omega arith))
