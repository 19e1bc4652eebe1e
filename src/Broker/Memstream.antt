-- ===== src/Broker/Memstream.antt =====
-- broker/memory.go, `memstream`: the history of one stream, a log of entries with offsets.
-- Times are Unix seconds, given to each method as `now`; `now - ttl` is compared by moving the ttl
-- to the other side, so that it need not be negative. Offsets are uint64. A read past the end of
-- the slice is `panic`. The lock makes each method one step. The time to live is
-- small enough that ten times as many seconds fit in Go's `time.Duration`, which is not checked.
pub mod Invariant
pub mod History
pub mod Expiry
use anycable.Prelude.{
  uint64, ℕ, zero, suc, ◌+◌, ◌-◌, ◌*◌, ◌%◌, ◌^◌, Bool, true, false, Option, none, some, List, [],
  ◌∷◌, ◌++◌, length, drop, ltb, leb, nat_beq, if◌then◌else◌, String,
}
use anycable.Broker.Outcome.{
  Outcome, ok, err, panic, ◌>>=◌, offset_too_low, stream_is_empty, offset_too_high, offset_taken,
}

pub record Entry : Type 0 where
  pub timestamp : ℕ
  pub offset : ℕ
  pub payload : String

pub record Memstream : Type 0 where
  pub offset : ℕ
  pub deadline : ℕ
  pub low : ℕ
  pub entries : List Entry
  pub ttl : ℕ
  pub limit : ℕ

pub new_memstream : ℕ → ℕ → Memstream
new_memstream ttl limit = record {
  offset = 0;
  deadline = 0;
  low = 0;
  entries = [];
  ttl = ttl;
  limit = limit;
}

-- `data[0].offset`
unfoldable pub first_offset : List Entry → Outcome ℕ
first_offset [] = panic
first_offset (e ∷ es) = ok e.offset

-- `data[len(data)-1].offset`
unfoldable pub last_offset : List Entry → Outcome ℕ
last_offset [] = panic
last_offset (e ∷ []) = ok e.offset
last_offset (e ∷ f ∷ es) = last_offset (f ∷ es)

unfoldable pub trim : Memstream → Outcome Memstream
unfolding first_offset
trim ms =
    let rest = drop 1 ms.entries in
    if ltb ms.limit (length ms.entries)
    then (do low ← first_offset rest; ok (record ms { entries = rest; low = low }))
    else ok ms

unfoldable pub set_low : Memstream → Outcome Memstream
unfolding first_offset
set_low ms =
    if nat_beq ms.low 0
    then (do low ← first_offset ms.entries; ok (record ms { low = low }))
    else ok ms

unfoldable pub append_entry : ℕ → Memstream → Entry → Outcome Memstream
unfolding trim set_low
append_entry now ms e = do
  trimmed ← trim (record ms { entries = ms.entries ++ e ∷ [] })
  lowered ← set_low trimmed
  ok (record lowered { deadline = now + ms.ttl * 10 })

unfoldable pub add : ℕ → String → Memstream → Outcome (Memstream × ℕ)
add now payload ms = do
  let next = (ms.offset + 1) % uint64
  let e : Entry = record { timestamp = now; offset = next; payload = payload }
  ms' ← append_entry now (record ms { offset = next }) e
  ok (ms', next)

-- `t` is `none` for Go's zero time, in whose place the clock is read.
unfoldable pub insert : ℕ → String → ℕ → Option ℕ → Memstream → Outcome (Memstream × ℕ)
insert now payload offset t ms =
    let ts : ℕ = elim t [ none ↦ now | some s ↦ s ] in
    let e : Entry = record { timestamp = ts; offset = offset; payload = payload } in
    if leb offset ms.offset
    then err offset_taken
    else (do ms' ← append_entry now (record ms { offset = offset }) e; ok (ms', offset))

unfoldable pub peak : Memstream → ℕ
unfolding last_offset
peak ms = elim (last_offset ms.entries) [ ok o ↦ o | _ ↦ 0 ]

-- `cutIndex`: how many entries at the front are older than the deadline.
unfoldable pub cut_index : ℕ → ℕ → List Entry → ℕ
cut_index now ttl [] = 0
cut_index now ttl (e ∷ es) = if ltb (e.timestamp + ttl) now then suc (cut_index now ttl es) else 0

abbrev pub low_of : List Entry → ℕ
low_of [] = 0
low_of (e ∷ es) = e.offset

unfoldable pub expire : ℕ → Memstream → Memstream
unfolding cut_index
expire now ms =
    let rest = drop (cut_index now ms.ttl ms.entries) ms.entries in
    record ms { entries = rest; low = low_of rest }

-- The entries that the callback is called with, in order.
unfoldable pub filter_by_offset : ℕ → Memstream → Outcome (List Entry)
unfolding last_offset
filter_by_offset offset ms =
    let start = (offset + uint64 - ms.low + 1) % uint64 in
    if ltb offset ms.low
    then err offset_too_low
    else if nat_beq ms.low 0
    then err stream_is_empty
    else if ltb (length ms.entries) start
    then (do latest ← last_offset ms.entries; err offset_too_high)
    else ok (drop start ms.entries)

unfoldable pub filter_by_time : ℕ → List Entry → List Entry
filter_by_time since [] = []
filter_by_time since (e ∷ es) =
    let rest = filter_by_time since es in if leb since e.timestamp then e ∷ rest else rest
