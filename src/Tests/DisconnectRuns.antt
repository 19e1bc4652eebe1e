-- ===== src/Tests/DisconnectRuns.antt =====
-- The queue of sessions that have gone.
use anycable.Prelude.{
  ℕ, ◌*◌, ◌≤◌, ◌<◌, ◌≡◌, ◌↔◌, refl, true, false, none, some, List, [], ◌∷◌, String, string_eq,
  arith,
}
use anycable.Node.Disconnector.{
  DisconnectQueue, Event, enqueues, sends, takes, ticks, stops, returns, new_disconnect_queue, run,
  step, check_open, send, take, tell, stop, return_run,
}
use anycable.Node.Disconnector.Rate.{ticker, ticker_lem}
use anycable.Node.Disconnector.Ledger.{in_all, enqueued_in, run-new_disconnect_queue}
use anycable.Node.Disconnector.Late.{run-late}

ticker_lem_example :
    (((d : ℕ) × (ticker 300 ≡ some d)) ↔ ((0 < 300) × (300 ≤ 1000)))
    × ((d : ℕ) → ticker 300 ≡ some d → (300 * d ≤ 1000) × (1 ≤ d))
ticker_lem_example = ticker_lem 300

-- "a" is told of at a tick, "b" waits in the channel.
abbrev two_gone : List (Event String)
two_gone = enqueues "a" ∷ enqueues "b" ∷ sends ∷ takes ∷ sends ∷ ticks ∷ stops ∷ enqueues "c" ∷ []

abbrev left : DisconnectQueue String
left = record {
  admitted = [];
  disconnect = "b" ∷ [];
  backlog = 8;
  in_hand = none;
  running = true;
  signalled = true;
  draining = true;
  is_stopped = true;
  told = "a" ∷ [];
  dropped = "c" ∷ [];
}

two_gone-left : run (new_disconnect_queue 8) two_gone ≡ some left
unfolding run step new_disconnect_queue check_open send take tell stop
two_gone-left = refl

run-new_disconnect_queue_example : in_all "b" left ≡ enqueued_in "b" two_gone
run-new_disconnect_queue_example = run-new_disconnect_queue "b" 8 two_gone left two_gone-left

abbrev stranded : DisconnectQueue String
stranded = record {
  admitted = [];
  disconnect = "a" ∷ [];
  backlog = 8;
  in_hand = none;
  running = false;
  signalled = false;
  draining = false;
  is_stopped = true;
  told = [];
  dropped = "b" ∷ [];
}

stranded_lem :
    run (new_disconnect_queue 8) (enqueues "a" ∷ stops ∷ returns ∷ sends ∷ enqueues "b" ∷ [])
    ≡ some stranded
unfolding run step new_disconnect_queue check_open send stop return_run
stranded_lem = refl

run-late_example : DisconnectQueue.told stranded ≡ []
run-late_example = run-late "a" 8 (enqueues "b" ∷ []) stranded (omega arith) stranded_lem
