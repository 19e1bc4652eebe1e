-- ===== src/Tests/BrokerRuns.antt =====
-- The streams' history and the streams' reference counts.
use anycable.Prelude.{ℕ, ◌≡◌, refl, none, [], ◌∷◌, arith}
use anycable.Broker.Outcome.{ok, err, panic, offset_too_low, offset_too_high, offset_taken}
use anycable.Broker.Memstream.{
  Entry, Memstream, add, insert, peak, expire, filter_by_offset, filter_by_time, append_entry, trim,
  set_low, first_offset, last_offset, cut_index,
}
use anycable.Broker.Memstream.Invariant.{IsLog}
use anycable.Broker.Memstream.History.{answer, filter_by_offset-answer}
use anycable.Broker.Memstream.Expiry.{limit_zero_panics}
use anycable.Broker.Tracker.{subs, unsubs, run}
use anycable.Broker.Tracker.Counts.{Agrees, run-Agrees}

abbrev entry : ℕ → ℕ → Entry
entry t o = record { timestamp = t; offset = o; payload = "m" }

-- Offsets 4 and 5 are held; 3 messages went before.
abbrev stream : Memstream
stream = record {
  offset = 5;
  deadline = 3100;
  low = 4;
  entries = entry 90 4 ∷ entry 100 5 ∷ [];
  ttl = 300;
  limit = 3;
}

stream-IsLog : IsLog stream
stream-IsLog = omega arith

filter_by_offset-answer_example : filter_by_offset 4 stream ≡ answer 4 stream.offset stream.entries
filter_by_offset-answer_example = filter_by_offset-answer 4 stream stream-IsLog (omega arith)

abbrev gapped : Memstream
gapped = record stream { low = 1; offset = 9; entries = entry 90 1 ∷ entry 100 9 ∷ [] }

history : Unit {0}
unfolding add insert peak expire filter_by_offset filter_by_time append_entry trim set_low
    first_offset last_offset cut_index
history = tt

served : filter_by_offset 4 stream ≡ ok (entry 100 5 ∷ [])
unfolding history
served = refl

too_old : filter_by_offset 3 stream ≡ err offset_too_low
unfolding history
too_old = refl

ahead : filter_by_offset 6 stream ≡ err offset_too_high
unfolding history
ahead = refl

taken : insert 200 "m" 5 none stream ≡ err offset_taken
unfolding history
taken = refl

limit_zero_panics_example :
    (add 100 "m" (record stream { limit = 0; entries = [] }) ≡ panic)
    × (insert 100 "m" 6 none (record stream { limit = 0; entries = [] }) ≡ panic)
limit_zero_panics_example =
    limit_zero_panics 100 6 "m" (record stream { limit = 0; entries = [] }) refl refl (omega arith)

run-Agrees_example :
    Agrees
      (unsubs "a" ∷ subs "b" ∷ subs "a" ∷ subs "a" ∷ [])
      (run (unsubs "a" ∷ subs "b" ∷ subs "a" ∷ subs "a" ∷ []))
run-Agrees_example = run-Agrees (unsubs "a" ∷ subs "b" ∷ subs "a" ∷ subs "a" ∷ []) (omega arith)
