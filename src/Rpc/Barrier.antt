-- ===== src/Rpc/Barrier.antt =====
-- rpc/barrier.go, `FixedSizeBarrier`: a channel with a ticket for each call that may run. Where the
-- code blocks, the result is `none`. A capacity below zero is refused as zero is.
pub mod Tickets
use anycable.Prelude.{ℕ, zero, suc, ◌-◌, Option, none, some, if◌then◌else◌, ltb, nat_beq}

pub record FixedSizeBarrier : Type 0 where
  pub capacity : ℕ
  -- The tickets in the channel, which has room for `capacity`.
  pub sem : ℕ

unfoldable pub new_fixed_size_barrier : ℕ → Option FixedSizeBarrier
new_fixed_size_barrier capacity =
    if nat_beq capacity 0 then none else some (record { capacity = capacity; sem = capacity })

unfoldable pub acquire : FixedSizeBarrier → Option FixedSizeBarrier
acquire b = elim b.sem [ zero ↦ none | suc left ↦ some (record b { sem = left }) ]

unfoldable pub release : FixedSizeBarrier → Option FixedSizeBarrier
release b = if ltb b.sem b.capacity then some (record b { sem = suc b.sem }) else none

unfoldable pub busy_count : FixedSizeBarrier → ℕ
busy_count b = b.capacity - b.sem
