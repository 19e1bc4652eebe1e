-- ===== src/Tests/QueueRuns.antt =====
-- The write queue: a run that grows, wraps round, shrinks, overflows and closes.
use anycable.Prelude.{ℕ, ◌≡◌, refl, some, List, [], ◌∷◌, true, false, arith}
use anycable.Utils.Queue.{
  Queue, Item, new_queue, push_ok, push_overflow, add, push, remove, close, clear, wait, set?, copy,
  copy_at, relocate, resize, clear_locked, grow, put_tail, enqueue, take_head, shrink,
}
use anycable.Utils.Queue.Spec.{
  Call, Reply, adds, pushes, removes, closes, added, pushed, removed, done, run, call, view,
  spec_run,
}
use anycable.Utils.Queue.Invariant.{IsValid, total}
use anycable.Utils.Queue.Ring.{window}
use anycable.Utils.Queue.Refine.{run-spec_run, new_queue-IsValid}

program : Unit {0}
unfolding set? copy copy_at add push remove close clear wait new_queue relocate resize clear_locked
    grow put_tail enqueue take_head shrink run call total window
program = tt

abbrev frame : ℕ → Item ℕ
frame n = record { size = n; item_data = n }

abbrev calls : List (Call ℕ)
calls =
    pushes (frame 1) 10
    ∷ pushes (frame 2) 10
    ∷ removes
    ∷ adds (frame 3)
    ∷ pushes (frame 4) 10
    ∷ removes
    ∷ removes
    ∷ pushes (frame 9) 10
    ∷ pushes (frame 5) 10
    ∷ adds (frame 6)
    ∷ closes
    ∷ adds (frame 7)
    ∷ []

abbrev replies : List (Reply ℕ)
replies =
    pushed push_ok
    ∷ pushed push_ok
    ∷ removed (some (frame 1))
    ∷ added true
    ∷ pushed push_ok
    ∷ removed (some (frame 2))
    ∷ removed (some (frame 3))
    ∷ pushed push_ok
    ∷ pushed push_overflow
    ∷ added true
    ∷ done
    ∷ added false
    ∷ []

run_calls : (q : Queue ℕ) × (run 0 (new_queue 0 2) calls ≡ some (q, replies))
unfolding program
run_calls = (
  record { nodes = []; head = 0; tail = 1; cnt = 0; size = 0; closed = true; init_cap = 2 },
  refl,
)

run-spec_run_example :
    (r : Queue ℕ) × (run 0 (new_queue 0 2) calls
      ≡ some (r, (spec_run (view 0 (new_queue 0 2)) calls).1))
    × IsValid 0 r
    × ((spec_run (view 0 (new_queue 0 2)) calls).0 ≡ view 0 r)
run-spec_run_example =
    run-spec_run 0 (new_queue 0 2) calls (omega arith)
      (new_queue-IsValid {T = ℕ} 0 2 (omega arith)).0
