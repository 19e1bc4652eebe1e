-- ===== src/Broker/Tracker.antt =====
-- broker/broker.go, `StreamsTracker`, and `Subscribe` and `Unsubscribe` of `LegacyBroker` (there)
-- and `Memory` (broker/memory.go), which share their text: how often each stream is in use, and
-- what the broadcaster is told. The lock makes each method one step; the counters are uint64.
pub mod Counts
use anycable.Prelude.{
  uint64, ℕ, ◌+◌, ◌-◌, ◌%◌, ◌^◌, Bool, true, false, Option, none, some, List, [], ◌∷◌, ◌++◌,
  nat_beq, if◌then◌else◌, String, string_eq,
}
use anycable.Prelude.Dict.{Dict, lookup, insert, delete, has}

abbrev pub StreamsTracker : Type 0
StreamsTracker = Dict String ℕ

-- The tracker, and whether the stream is new.
unfoldable pub add : StreamsTracker → String → StreamsTracker × Bool
add store name = elim (lookup name store) [
  | none ↦ (insert name 1 store, true)
  | some n ↦ (insert name ((n + 1) % uint64) store, false)
]

-- The tracker, and whether this was the last use.
unfoldable pub remove : StreamsTracker → String → StreamsTracker × Bool
remove store name = elim (lookup name store) [
  | none ↦ (store, false)
  | some n ↦
      if nat_beq n 1
      then (delete name store, true)
      else (insert name ((n + uint64 - 1) % uint64) store, false)
]

-- A call of the broadcaster.
pub data Notice : Type 0 where
  subscribes unsubscribes : String → Notice

-- The broker's share of the state: its tracker, and what the broadcaster has been told, the latest
-- first.
pub record Tracked : Type 0 where
  pub tracker : StreamsTracker
  pub told : List Notice

unfoldable pub subscribe : Tracked → String → Tracked
subscribe b stream =
    let (tracker, is_new) = add b.tracker stream in
    record b { tracker = tracker; told = if is_new then subscribes stream ∷ b.told else b.told }

unfoldable pub unsubscribe : Tracked → String → Tracked
unsubscribe b stream =
    let (tracker, is_last) = remove b.tracker stream in
    record b { tracker = tracker; told = if is_last then unsubscribes stream ∷ b.told else b.told }

pub data Request : Type 0 where
  subs unsubs : String → Request

pub handle : Tracked → Request → Tracked
unfolding subscribe unsubscribe
handle b (subs stream) = subscribe b stream
handle b (unsubs stream) = unsubscribe b stream

-- Requests, the latest first.
unfoldable pub run : List Request → Tracked
unfolding handle
run [] = record { tracker = []; told = [] }
run (r ∷ rs) = handle (run rs) r
