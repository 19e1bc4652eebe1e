-- ===== src/Utils/PriorityQueue/Pushes.antt =====
-- utils/priority_queue.go, `Push` of a new item: the last slot before it climbs.
use anycable.Prelude.{
  ℕ, ◌+◌, ◌<◌, ◌≡◌, some, [], ◌∷◌, arith, nat_beq, if◌then◌else◌, sym, subst, Bool-cases, inl, inr,
  get_or-append_front, get_or-append_end, length-append,
}
use anycable.Utils.PriorityQueue.{
  PriorityQueue, PriorityQueueItem, len, slot, priority_at, set_item, push,
}
use anycable.Utils.PriorityQueue.Sifts.{parent, IsOrdered, HasHole, IsBelow}
use anycable.Utils.PriorityQueue.Swaps.{IsIndexed}
use anycable.Utils.PriorityQueue.View.{find, find-slot, find_same}

module _ {T : Type 0} (pq : PriorityQueue T) (item : PriorityQueueItem T) where
  -- An item written at the fresh address, and appended.
  abbrev pub pushed : PriorityQueue T
  pushed =
      push (record pq { items = set_item pq.items pq.fresh item; fresh = pq.fresh + 1 }) pq.fresh

  pub len-pushed : len pushed ≡ len pq + 1
  unfolding push
  len-pushed = length-append pq.slots (pq.fresh ∷ [])

  slot-pushed_front : (c : ℕ) → c < len pq → slot pushed c ≡ slot pq c
  unfolding push
  slot-pushed_front c h = get_or-append_front pq.slots (pq.fresh ∷ []) c 0 h

  slot-pushed_end : slot pushed (len pq) ≡ pq.fresh
  unfolding push
  slot-pushed_end = get_or-append_end pq.slots pq.fresh 0

  slot-pushed :
      (c : ℕ)
      → c < len pushed
      → slot pushed c ≡ (if nat_beq c (len pq) then pq.fresh else slot pq c)
  slot-pushed c h = elim (Bool-cases (nat_beq c (len pq))) [
    | (inl e) ↦
        let same : c ≡ len pq = ground arith in
        rw e (subst (λ x. slot pushed x ≡ pq.fresh) (sym same) slot-pushed_end)
    | (inr e) ↦ rw e (slot-pushed_front c (ground (arith, len-pushed)))
  ]

  items-pushed :
      (a : ℕ)
      → pushed.items a
        ≡ (if nat_beq a pq.fresh then record item { index = some (len pq) } else pq.items a)
  unfolding push
  items-pushed a = ground arith

  pub pushed-IsIndexed : IsIndexed pq → IsIndexed pushed
  unfolding push
  pushed-IsIndexed v = record {
    knows = λ c h.
        rw (slot-pushed c h, items-pushed (if nat_beq c (len pq) then pq.fresh else slot pq c))
          (ground (arith, len-pushed, v.knows c, v.allocated c));
    allocated = λ c h. ground (arith, slot-pushed c h, len-pushed, v.allocated c);
  }

  priority_at-pushed :
      IsIndexed pq
      → (c : ℕ) → c < len pushed
      → priority_at pushed c ≡ (if nat_beq c (len pq) then item.priority else priority_at pq c)
  priority_at-pushed v c h =
      ground (arith, slot-pushed c h, items-pushed (slot pushed c), v.allocated c, len-pushed)

  pub pushed-HasHole :
      IsIndexed pq
      → IsOrdered (len pq) (priority_at pq)
      → HasHole (len pushed) (priority_at pushed) (len pq)
  pushed-HasHole v h = record {
    edges = λ c pos inside ne np.
        ground
          (arith, len-pushed, priority_at-pushed v c inside, priority_at-pushed v (parent c), h c);
    bridged = λ c pos inside e ip. absurd (omega (arith, len-pushed));
  }

  pub pushed-IsBelow : IsBelow (len pushed) (priority_at pushed) (len pq)
  pushed-IsBelow c pos inside e = absurd (omega (arith, len-pushed))

  pub find-pushed :
      IsIndexed pq
      → (b : ℕ)
      → find pushed b ≡ (if nat_beq b pq.fresh then some (item.value, item.priority) else find pq b)
  find-pushed v b = elim (Bool-cases (nat_beq b pq.fresh)) [
    | (inl e) ↦
        let end : slot pushed (len pq) ≡ b = ground (arith, slot-pushed_end) in
        rw e (
          ground
            (arith, find-slot pushed (len pq) (omega (arith, len-pushed)), end, items-pushed b))
    | (inr e) ↦ rw e (
        find_same pq pushed b
          (λ (c, inside, at). (c, omega (arith, len-pushed), ground (arith, slot-pushed_front c)))
          (λ (c, inside, at).
            (c, ground (arith, len-pushed, slot-pushed c), ground (arith, slot-pushed c)))
          (ground (arith, items-pushed b)) (ground (arith, items-pushed b)))
  ]
