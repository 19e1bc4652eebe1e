-- ===== src/Broker/Memstream/Invariant.antt =====
-- broker/memory.go, `memstream`: a log that only `add` and `expire` have touched holds a run of
-- consecutive offsets, at most `limit` of them, that ends at the last offset handed out.
use anycable.Prelude.{
  uint64, ℕ, zero, suc, ◌+◌, ◌-◌, ◌*◌, ◌%◌, ◌≤◌, ◌<◌, ◌≡◌, refl, ap, true, false, List, [], ◌∷◌,
  ◌++◌, length, drop, ltb, nat_beq, String, arith, length-append, length-drop, Bool-cases, inl, inr,
}
use anycable.Broker.Outcome.{ok}
use anycable.Broker.Memstream.{
  Entry, Memstream, new_memstream, first_offset, append_entry, add, expire, cut_index, low_of,
}

-- The offsets are `k`, `k + 1`, ….
abbrev pub IsRun : ℕ → List Entry → Type 0
IsRun k [] = Unit {0}
IsRun k (e ∷ es) = (e.offset ≡ k) × IsRun (k + 1) es

pub IsRun-append :
    (k n : ℕ) (xs : List Entry) (e : Entry)
    → IsRun k xs
    → n ≡ k + length xs
    → e.offset ≡ n
    → IsRun k (xs ++ e ∷ [])
IsRun-append k n [] e h p q = (omega arith, tt)
IsRun-append k n (x ∷ xs) e h p q = (h.0, IsRun-append (k + 1) n xs e h.1 (omega arith) q)

pub IsRun-drop : (k n : ℕ) (xs : List Entry) → IsRun k xs → IsRun (k + n) (drop n xs)
IsRun-drop k zero xs h = let e : k + 0 ≡ k = omega arith in rw e h
IsRun-drop k (suc n) [] h = tt
IsRun-drop k (suc n) (x ∷ xs) h =
    let e : k + suc n ≡ k + 1 + n = omega arith in rw e (IsRun-drop (k + 1) n xs h.1)

-- Where the log starts, and that it ends at the last offset handed out.
abbrev pub Spans : ℕ → ℕ → List Entry → Type 0
Spans low last [] = low ≡ 0
Spans low last (e ∷ es) = (0 < low) × (low + length es ≡ last)

pub record IsLog (ms : Memstream) : Type 0 where
  pub limit_pos : 0 < ms.limit
  pub in_range : ms.offset < uint64
  pub run : IsRun ms.low ms.entries
  pub spans : Spans ms.low ms.offset ms.entries
  pub bounded : length ms.entries ≤ ms.limit

pub new_memstream-IsLog : (ttl limit : ℕ) → 0 < limit → IsLog (new_memstream ttl limit)
unfolding new_memstream
new_memstream-IsLog ttl limit h = ground arith

-- The last `limit` entries.
abbrev pub newest : ℕ → List Entry → List Entry
newest limit es = drop (length es - limit) es

-- What `add` leaves.
pub record IsAdded (now : ℕ) (payload : String) (ms ms' : Memstream) : Type 0 where
  pub log : IsLog ms'
  pub entries :
      ms'.entries
      ≡ newest ms.limit
          (ms.entries ++ record { timestamp = now; offset = ms.offset + 1; payload = payload } ∷ [])
  pub offset : ms'.offset ≡ ms.offset + 1
  pub limit : ms'.limit ≡ ms.limit
  pub deadline : ms'.deadline ≡ now + ms.ttl * 10
  pub ttl : ms'.ttl ≡ ms.ttl

first_offset-IsRun : (k : ℕ) (xs : List Entry) → 0 < length xs → IsRun k xs → first_offset xs ≡ ok k
unfolding first_offset
first_offset-IsRun k [] p h = absurd (omega arith)
first_offset-IsRun k (x ∷ xs) p h = ap ok h.0

Spans-length :
    (low last : ℕ) (xs : List Entry)
    → 0 < low
    → 0 < length xs
    → low + length xs ≡ last + 1
    → Spans low last xs
Spans-length low last [] p q e = absurd (omega arith)
Spans-length low last (x ∷ xs) p q e = (p, omega arith)

module _ (now o offset deadline ttl limit : ℕ) (e : Entry) (pos : 0 < limit)
    (next : e.offset ≡ o + 1) where
  abbrev state : ℕ → ℕ → List Entry → Memstream
  state deadline' low xs = record {
    offset = offset;
    deadline = deadline';
    low = low;
    entries = xs;
    ttl = ttl;
    limit = limit;
  }

  abbrev Appends : ℕ → List Entry → Type 0
  Appends low xs =
      (low' : ℕ) × (append_entry now (state deadline low xs) e
        ≡ ok (state (now + ttl * 10) low' (newest limit (xs ++ e ∷ []))))
      × IsRun low' (newest limit (xs ++ e ∷ []))
      × Spans low' (o + 1) (newest limit (xs ++ e ∷ []))

  append_room :
      (low : ℕ) (x : Entry) (xs : List Entry)
      → IsRun low (x ∷ xs)
      → 0 < low
      → low + length xs ≡ o
      → length xs + 1 < limit
      → Appends low (x ∷ xs)
  unfolding append_entry
  append_room low x xs run lp span room =
      let len = length-append (x ∷ xs) (e ∷ []) in
      let keep : length ((x ∷ xs) ++ e ∷ []) - limit ≡ 0 = omega (arith, len) in
      let fits : ltb limit (length ((x ∷ xs) ++ e ∷ [])) ≡ false = ground (arith, len) in
      let set : nat_beq low 0 ≡ false = ground arith in
      (
        low,
        rw (keep, fits, set),
        rw keep (IsRun-append low (o + 1) (x ∷ xs) e run (omega arith) next),
        rw keep (lp, omega (arith, len)),
      )

  append_full :
      (low : ℕ) (x : Entry) (xs : List Entry)
      → IsRun low (x ∷ xs)
      → 0 < low
      → low + length xs ≡ o
      → length xs + 1 ≡ limit
      → Appends low (x ∷ xs)
  unfolding append_entry
  append_full low x xs run lp span room =
      let len = length-append (x ∷ xs) (e ∷ []) in
      let len' = length-append xs (e ∷ []) in
      let keep : length ((x ∷ xs) ++ e ∷ []) - limit ≡ 1 = omega (arith, len) in
      let over : ltb limit (length ((x ∷ xs) ++ e ∷ [])) ≡ true = ground (arith, len) in
      let run' : IsRun (low + 1) (xs ++ e ∷ []) =
        IsRun-append (low + 1) (o + 1) xs e run.1 (omega arith) next in
      let first = first_offset-IsRun (low + 1) (xs ++ e ∷ []) (omega (arith, len')) run' in
      let set : nat_beq (low + 1) 0 ≡ false = ground arith in
      (
        low + 1,
        rw (keep, over, first, set),
        rw keep run',
        rw keep (
            Spans-length (low + 1) (o + 1) (xs ++ e ∷ []) (omega arith) (omega (arith, len'))
              (omega (arith, len'))),
      )

  append_entry-Appends :
      (low : ℕ) (xs : List Entry)
      → IsRun low xs
      → Spans low o xs
      → length xs ≤ limit
      → Appends low xs
  unfolding append_entry first_offset
  append_entry-Appends low [] run span fits =
      let keep : length (e ∷ []) - limit ≡ 0 = omega arith in
      let small : ltb limit 1 ≡ false = ground arith in
      (e.offset, rw (keep, small, span), rw keep (refl, tt), rw keep (omega arith, omega arith))
  append_entry-Appends low (x ∷ xs) run span fits = elim (Bool-cases (ltb (length xs + 1) limit)) [
    | inl room ↦ append_room low x xs run span.0 span.1 (ground arith)
    | inr full ↦ append_full low x xs run span.0 span.1 (ground arith)
  ]

-- A log whose next offset is below 2^64 grows by one entry under it, which add returns; past limit
-- entries the oldest goes; it is still a log and nothing panics.
pub add-IsAdded :
    (now : ℕ) (payload : String) (ms : Memstream)
    → IsLog ms
    → ms.offset + 1 < uint64
    → (ms' : Memstream) × (add now payload ms ≡ ok (ms', ms.offset + 1))
      × IsAdded now payload ms ms'
unfolding add
add-IsAdded now payload ms v h =
    let e : Entry = record { timestamp = now; offset = ms.offset + 1; payload = payload } in
    let m : (ms.offset + 1) % uint64 ≡ ms.offset + 1 = omega arith in
    let (low', eq, run, span) =
      append_entry-Appends now ms.offset (ms.offset + 1) ms.deadline ms.ttl ms.limit e v.limit_pos
        refl ms.low ms.entries v.run v.spans v.bounded in
    (
      record ms {
        offset = ms.offset + 1;
        deadline = now + ms.ttl * 10;
        low = low';
        entries = newest ms.limit (ms.entries ++ e ∷ []);
      },
      rw (m, eq),
      record {
        log = record {
          limit_pos = v.limit_pos;
          in_range = h;
          run = run;
          spans = span;
          bounded = omega (
            arith,
            length-append ms.entries (e ∷ []),
            length-drop (length (ms.entries ++ e ∷ []) - ms.limit) (ms.entries ++ e ∷ []),
            v.bounded,
          );
        };
        entries = refl;
        offset = refl;
        limit = refl;
        deadline = refl;
        ttl = refl;
      },
    )

Spans-drop :
    (low last n : ℕ) (xs : List Entry)
    → IsRun low xs
    → Spans low last xs
    → IsRun (low_of (drop n xs)) (drop n xs) × Spans (low_of (drop n xs)) last (drop n xs)
Spans-drop low last zero [] run span = (tt, refl)
Spans-drop low last zero (x ∷ xs) run span =
    let e : x.offset ≡ low = run.0 in ((refl, rw e run.1), omega arith)
Spans-drop low last (suc n) [] run span = (tt, refl)
Spans-drop low last (suc zero) (x ∷ []) run span = (tt, refl)
Spans-drop low last (suc (suc n)) (x ∷ []) run span = (tt, refl)
Spans-drop low last (suc n) (x ∷ y ∷ xs) run span =
    Spans-drop (low + 1) last n (y ∷ xs) run.1 (omega arith)

-- Expiration keeps the run of offsets and the last offset, also when it empties the log.
pub expire-IsLog : (now : ℕ) (ms : Memstream) → IsLog ms → IsLog (expire now ms)
unfolding expire
expire-IsLog now ms v =
    let n = cut_index now ms.ttl ms.entries in
    let (run, span) = Spans-drop ms.low ms.offset n ms.entries v.run v.spans in
    record {
      limit_pos = v.limit_pos;
      in_range = v.in_range;
      run = run;
      spans = span;
      bounded = omega (arith, length-drop n ms.entries, v.bounded);
    }
