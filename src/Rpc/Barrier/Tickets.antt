-- ===== src/Rpc/Barrier/Tickets.antt =====
-- rpc/barrier.go: calls come and go, each with a ticket of its own.
use anycable.Prelude.{ℕ, suc, ◌+◌, ◌≤◌, ◌<◌, ◌≡◌, ◌≢◌, ◌↔◌, none, some, arith}
use anycable.Rpc.Barrier.{FixedSizeBarrier, new_fixed_size_barrier, acquire, release, busy_count}

-- The states of a barrier of a capacity, with how many calls hold a ticket: calls start when they get
-- one, and each gives its own back at its end.
pub data Reach (capacity : ℕ) : FixedSizeBarrier → ℕ → Type 0 where
  opened : {b : FixedSizeBarrier} → new_fixed_size_barrier capacity ≡ some b → Reach capacity b 0
  starts :
      {b b' : FixedSizeBarrier} {running : ℕ}
      → Reach capacity b running
      → acquire b ≡ some b'
      → Reach capacity b' (suc running)
  ends :
      {b b' : FixedSizeBarrier} {running : ℕ}
      → Reach capacity b (suc running)
      → release b ≡ some b'
      → Reach capacity b' running

abbrev pub IsBalanced : ℕ → FixedSizeBarrier → ℕ → Type 0
IsBalanced capacity b running =
    (b.capacity ≡ capacity) × (running + b.sem ≡ capacity) × (0 < capacity)

Reach-IsBalanced :
    {capacity : ℕ} {b : FixedSizeBarrier} {running : ℕ}
    → Reach capacity b running
    → IsBalanced capacity b running
unfolding new_fixed_size_barrier acquire release
Reach-IsBalanced {capacity} (opened e) = ground arith
Reach-IsBalanced (starts {b} r e) =
    let (same, sum, some_room) = Reach-IsBalanced r in ground (arith, same, sum, some_room)
Reach-IsBalanced (ends {b} r e) =
    let (same, sum, some_room) = Reach-IsBalanced r in ground (arith, same, sum, some_room)

-- However calls have started and ended on a barrier, BusyCount is the number of those that run,
-- which is never more than the capacity; a call has to wait for a ticket exactly when that many
-- run, and none that runs has to wait when it gives its ticket back.
pub Reach-busy_count :
    (capacity running : ℕ) (b : FixedSizeBarrier)
    → Reach capacity b running
    → (busy_count b ≡ running)
      × (running ≤ capacity)
      × ((acquire b ≡ none) ↔ (running ≡ capacity))
      × (0 < running → release b ≢ none)
unfolding busy_count acquire release
Reach-busy_count capacity running b r =
    let (same, sum, some_room) = Reach-IsBalanced r in
    (omega arith, omega arith, ground (arith, same, sum), λ more e. ground (arith, same, sum))
