-- ===== src/Broker/Memstream/History.antt =====
-- broker/memory.go, `filterByOffset`: what a client that resumes at an offset gets.
use anycable.Prelude.{
  uint64, ℕ, zero, suc, ◌+◌, ◌-◌, ◌%◌, ◌≤◌, ◌<◌, ◌≡◌, ◌≢◌, refl, ap, ◌∙◌, sym, false, List, [], ◌∷◌,
  ◌++◌, length, drop, ltb, nat_beq, if◌then◌else◌, String, arith, length-append, length-drop,
  Bool-cases, inl, inr, append_assoc, append-nil, subst,
}
use anycable.Broker.Outcome.{
  Outcome, ok, err, ◌>>=◌, offset_too_low, stream_is_empty, offset_too_high,
}
use anycable.Broker.Memstream.{Entry, Memstream, last_offset, add, filter_by_offset}
use anycable.Broker.Memstream.Invariant.{IsLog, IsRun, Spans, add-IsAdded}

-- The entries past an offset, by looking at each.
pub later : ℕ → List Entry → List Entry
later o [] = []
later o (e ∷ es) = let rest = later o es in if ltb o e.offset then e ∷ rest else rest

later_all : (o k : ℕ) (xs : List Entry) → o < k → IsRun k xs → later o xs ≡ xs
unfolding later
later_all o k [] h r = refl
later_all o k (x ∷ xs) h r = ground (arith, later_all o (k + 1) xs (omega arith) r.1)

drop-later : (o k n : ℕ) (xs : List Entry) → n + k ≡ o + 1 → IsRun k xs → drop n xs ≡ later o xs
unfolding later
drop-later o k zero [] h r = refl
drop-later o k (suc n) [] h r = refl
drop-later o k zero (x ∷ xs) h r = ground (arith, later_all o (k + 1) xs (omega arith) r.1)
drop-later o k (suc n) (x ∷ xs) h r = ground (arith, drop-later o (k + 1) n xs (omega arith) r.1)

last_offset_total : (e : Entry) (es : List Entry) → (o : ℕ) × (last_offset (e ∷ es) ≡ ok o)
unfolding last_offset
last_offset_total e [] = (e.offset, refl)
last_offset_total e (f ∷ es) = last_offset_total f es

-- The answer to a request, by looking at the offsets of the log only.
abbrev pub answer : ℕ → ℕ → List Entry → Outcome (List Entry)
answer o last [] = err stream_is_empty
answer o last (e ∷ es) =
    if ltb o e.offset
    then err offset_too_low
    else if ltb last o
    then err offset_too_high
    else ok (later o (e ∷ es))

answer_by_entries :
    (o offset deadline low ttl limit : ℕ) (xs : List Entry)
    → o < uint64
    → offset < uint64
    → IsRun low xs
    → Spans low offset xs
    → filter_by_offset o (record {
      offset = offset;
      deadline = deadline;
      low = low;
      entries = xs;
      ttl = ttl;
      limit = limit;
    })
      ≡ answer o offset xs
unfolding filter_by_offset
answer_by_entries o offset deadline low ttl limit [] h1 h2 run span = ground arith
answer_by_entries o offset deadline low ttl limit (x ∷ xs) h1 h2 run span =
    elim (Bool-cases (ltb o low)) [
      | inl below ↦ ground arith
      | inr above ↦
          let some_low : nat_beq low 0 ≡ false = ground arith in
          let start : (o + uint64 - low + 1) % uint64 ≡ o + 1 - low = ground arith in
          let (latest, found) = last_offset_total x xs in
          let rest = drop-later o low (o + 1 - low) (x ∷ xs) (ground arith) run in
          rw (start, some_low, above, found, rest, run.0, above) (ground arith)
    ]

-- On a log and for an offset below 2^64, the index arithmetic of filterByOffset gives the entries
-- past the offset found by looking at each, the errors below, above and on an empty log, and never
-- panics.
pub filter_by_offset-answer :
    (o : ℕ) (ms : Memstream)
    → IsLog ms
    → o < uint64
    → filter_by_offset o ms ≡ answer o ms.offset ms.entries
filter_by_offset-answer o ms v h =
    answer_by_entries o ms.offset ms.deadline ms.low ms.ttl ms.limit ms.entries h v.in_range v.run
      v.spans

-- Publications in order, each with the time at which it is made.
unfoldable pub add_all : List (ℕ × String) → Memstream → Outcome Memstream
add_all [] ms = ok ms
add_all ((now, payload) ∷ ps) ms = do (ms', _) ← add now payload ms; add_all ps ms'

-- The entries that the publications become, from an offset on.
unfoldable pub stamped : ℕ → List (ℕ × String) → List Entry
stamped k [] = []
stamped k ((now, payload) ∷ ps) =
    record { timestamp = now; offset = k; payload = payload } ∷ stamped (k + 1) ps

drop-append : (n : ℕ) (xs ys : List Entry) → n ≤ length xs → drop n (xs ++ ys) ≡ drop n xs ++ ys
drop-append zero xs ys h = refl
drop-append (suc n) [] ys h = absurd (omega arith)
drop-append (suc n) (x ∷ xs) ys h = drop-append n xs ys (omega arith)

drop_whole : (xs ys : List Entry) → drop (length xs) (xs ++ ys) ≡ ys
drop_whole [] ys = refl
drop_whole (x ∷ xs) ys = drop_whole xs ys

-- While fewer than `limit` publications are made, something older stays in front of them.
add_all-stamped :
    (ps : List (ℕ × String)) (ms : Memstream) (front back : List Entry)
    → IsLog ms
    → ms.offset + length ps < uint64
    → ms.entries ≡ front ++ back
    → 0 < length front
    → length back + length ps < ms.limit
    → (ms' : Memstream) × (front' : List Entry) × (add_all ps ms ≡ ok ms')
      × IsLog ms'
      × (ms'.offset ≡ ms.offset + length ps)
      × (ms'.entries ≡ front' ++ (back ++ stamped (ms.offset + 1) ps))
      × (0 < length front')
unfolding add_all stamped
add_all-stamped [] ms front back v h e pos room =
    (ms, front, refl, v, omega arith, rw append-nil e, pos)
add_all-stamped ((now, payload) ∷ ps) ms front back v h e pos room =
    let x : Entry = record { timestamp = now; offset = ms.offset + 1; payload = payload } in
    let (ms1, eq, a) = add-IsAdded now payload ms v (omega arith) in
    let n = length (ms.entries ++ x ∷ []) - ms.limit in
    let split : ms.entries ++ x ∷ [] ≡ front ++ (back ++ x ∷ []) =
      ap (λ l. l ++ x ∷ []) e ∙ append_assoc front back (x ∷ []) in
    let size : length (ms.entries ++ x ∷ []) ≡ length front + (length back + 1) =
      ap length split
      ∙ omega (arith, length-append front (back ++ x ∷ []), length-append back (x ∷ [])) in
    let small : n < length front = omega (arith, v.bounded, length-append ms.entries (x ∷ [])) in
    let held : ms1.entries ≡ drop n front ++ (back ++ x ∷ []) =
      a.entries ∙ (ap (drop n) split ∙ drop-append n front (back ++ x ∷ []) (omega arith)) in
    let (ms2, front', eq', v', o, held', pos') =
      add_all-stamped ps ms1 (drop n front) (back ++ x ∷ []) a.log (omega (arith, a.offset)) held
        (omega (arith, length-drop n front))
        (omega (arith, a.limit, length-append back (x ∷ []))) in
    (
      ms2,
      front',
      rw (eq, eq'),
      v',
      omega (arith, a.offset),
      held'
          ∙ ap (λ l. front' ++ l)
              (append_assoc back (x ∷ []) (stamped (ms1.offset + 1) ps)
                ∙ ap (λ k. back ++ x ∷ stamped (k + 1) ps) a.offset),
      pos',
    )

length-stamped : (k : ℕ) (ps : List (ℕ × String)) → length (stamped k ps) ≡ length ps
unfolding stamped
length-stamped k [] = refl
length-stamped k ((now, payload) ∷ ps) = ap suc (length-stamped (k + 1) ps)

positive : (xs : List Entry) → xs ≢ [] → 0 < length xs
positive [] h = absurd (h refl)
positive (x ∷ xs) h = omega arith

-- The answer at the offset in front of a tail of the log is that tail.
answer_tail :
    (o last low : ℕ) (front tail : List Entry)
    → IsRun low (front ++ tail)
    → Spans low last (front ++ tail)
    → 0 < length front
    → last ≡ o + length tail
    → answer o last (front ++ tail) ≡ ok tail
answer_tail o last low [] tail run span pos e = absurd (omega arith)
answer_tail o last low (y ∷ ys) tail run span pos e =
    let len = length-append ys tail in
    let above : ltb o y.offset ≡ false = ground (arith, len) in
    let below : ltb last o ≡ false = ground arith in
    let same : later o ((y ∷ ys) ++ tail) ≡ tail =
      sym (drop-later o low (suc (length ys)) ((y ∷ ys) ++ tail) (omega (arith, len)) run)
      ∙ drop_whole (y ∷ ys) tail in
    rw (above, below) (ap ok same)

-- A client that has seen everything up to the current offset of a stream with history, and comes
-- back after fewer than limit publications, is served exactly these, in order, each once, while the
-- offsets stay below 2^64.
pub add_all-filter_by_offset :
    (ps : List (ℕ × String)) (ms : Memstream)
    → IsLog ms
    → ms.entries ≢ []
    → ms.offset + length ps < uint64
    → length ps < ms.limit
    → (ms' : Memstream) × (add_all ps ms ≡ ok ms')
      × (filter_by_offset ms.offset ms' ≡ ok (stamped (ms.offset + 1) ps))
add_all-filter_by_offset ps ms v some_history h room =
    let (ms', front, e, v', o, held, pos) =
      add_all-stamped ps ms ms.entries [] v h (sym (append-nil ms.entries))
        (positive ms.entries some_history) (omega arith) in
    let tail = stamped (ms.offset + 1) ps in
    (
      ms',
      e,
      filter_by_offset-answer ms.offset ms' v' v.in_range
          ∙ (ap (answer ms.offset ms'.offset) held
              ∙ answer_tail ms.offset ms'.offset ms'.low front tail
                  (subst (IsRun ms'.low) held v'.run)
                  (subst (Spans ms'.low ms'.offset) held v'.spans) pos
                  (omega (arith, length-stamped (ms.offset + 1) ps))),
    )
