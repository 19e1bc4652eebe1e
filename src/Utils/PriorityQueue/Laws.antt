-- ===== src/Utils/PriorityQueue/Laws.antt =====
-- utils/priority_queue.go: each method on a heap in order, as a map of items by address, and the item
-- of least priority at the front.
use anycable.Prelude.{
  ℕ, zero, suc, ◌+◌, ◌-◌, ◌<◌, ◌≤◌, ◌≡◌, ◌∙◌, true, none, some, arith, refl, nat_beq, ltb,
  if◌then◌else◌, subst, Bool-cases, inl, inr,
}
use anycable.Utils.PriorityQueue.{
  PriorityQueue, PriorityQueueItem, len, slot, priority_at, set_item, swap, up, down, settle, pop,
  push_item, pop_item, update, peek, remove, new_priority_queue,
}
use anycable.Utils.PriorityQueue.Sifts.{parent, IsOrdered, HasHole, IsOrdered-HasHole}
use anycable.Utils.PriorityQueue.Swaps.{
  IsIndexed, IsRearranged, swap-IsRearranged, swap-IsExchange, slot-swap, len-swap,
}
use anycable.Utils.PriorityQueue.Loops.{
  up-IsRearranged, up-IsOrdered, down-IsRearranged, down-IsOrdered, settle-IsRearranged,
  settle-IsOrdered,
}
use anycable.Utils.PriorityQueue.Pushes.{
  pushed, len-pushed, pushed-IsIndexed, pushed-HasHole, pushed-IsBelow, find-pushed,
}
use anycable.Utils.PriorityQueue.View.{
  find, find-slot, found-IsQueued, find_missing, find-rearranged, pop-IsCut,
}

module _ {T : Type 0} where
  pub record IsHeap (pq : PriorityQueue T) : Type 0 where
    pub indexed : IsIndexed pq
    pub in_order : IsOrdered (len pq) (priority_at pq)

  least :
      (pq : PriorityQueue T)
      → IsHeap pq
      → (rounds c : ℕ) → c < rounds
      → c < len pq
      → priority_at pq 0 ≤ priority_at pq c
  least pq h zero c bound inside = absurd (omega arith)
  least pq h (suc rounds) zero bound inside = omega arith
  least pq h (suc rounds) (suc c) bound inside = omega (
    arith,
    h.in_order (suc c) (omega arith) inside,
    least pq h rounds (parent (suc c)) (omega arith) (omega arith),
  )

  pub peek-least :
      (pq : PriorityQueue T) (b : ℕ) (x : T × ℕ)
      → IsHeap pq
      → find pq b ≡ some x
      → (a : ℕ) × (y : T × ℕ) × (peek pq ≡ some a) × (find pq a ≡ some y) × (y.1 ≤ x.1)
  unfolding peek
  peek-least pq b x h e =
      let ((c, inside, at), v, p) = found-IsQueued pq b x e in
      let front : 0 < len pq = omega arith in
      (
        slot pq 0,
        (PriorityQueueItem.value (pq.items (slot pq 0)), priority_at pq 0),
        ground arith,
        find-slot pq 0 front,
        ground (arith, least pq h (suc c) c (omega arith) inside),
      )

  pub peek_found :
      (pq : PriorityQueue T) (a : ℕ)
      → peek pq ≡ some a
      → (0 < len pq)
        × (find pq a
            ≡ some (PriorityQueueItem.value (pq.items a), PriorityQueueItem.priority (pq.items a)))
  unfolding peek
  peek_found pq a e = elim (Bool-cases (ltb 0 (len pq))) [
    | (inl f) ↦
        let front : slot pq 0 ≡ a = ground arith in
        (
          ground arith,
          subst
              (λ x.
                find pq x
                ≡ some
                    (PriorityQueueItem.value (pq.items x), PriorityQueueItem.priority (pq.items x)))
              front (find-slot pq 0 (ground arith)),
        )
    | (inr f) ↦ absurd (ground arith)
  ]

  pub push_item_lem :
      (pq : PriorityQueue T) (v : T) (priority : ℕ)
      → IsHeap pq
      → let (pq', a) = push_item pq v priority in
        (IsHeap pq')
        × (find pq a ≡ none)
        × ((b : ℕ) → find pq' b ≡ (if nat_beq b a then some (v, priority) else find pq b))
  unfolding push_item
  push_item_lem pq v priority h =
      let item : PriorityQueueItem T = record { value = v; priority = priority; index = some 0 } in
      let before = pushed pq item in
      let size = len-pushed pq item in
      let r =
        up-IsRearranged (len pq + 1) (len before) before (len pq) (omega arith) (omega arith) in
      (
        record {
          indexed = r.indexed (pushed-IsIndexed pq item h.indexed);
          in_order = rw r.size (
              up-IsOrdered (len pq + 1) (len before) before (len pq) (omega arith) (omega arith)
                (omega arith) (pushed-HasHole pq item h.indexed h.in_order)
                (pushed-IsBelow pq item));
        },
        find_missing pq pq.fresh (λ c inside e. ground (arith, h.indexed.allocated c inside)),
        λ b.
            find-rearranged (len before) before (up (len pq + 1) before (len pq)) (omega arith) r b
            ∙ find-pushed pq item h.indexed b,
      )

  pub pop_item_empty : (pq : PriorityQueue T) → len pq ≡ 0 → pop_item pq ≡ none
  unfolding pop_item
  pop_item_empty pq e = ground arith

  -- What taking an item out leaves.
  pub record IsWithout (pq : PriorityQueue T) (a : ℕ) (result : PriorityQueue T) : Type 0 where
    pub heap : IsHeap result
    pub size : len result ≡ len pq - 1
    pub finds : (b : ℕ) → find result b ≡ (if nat_beq b a then none else find pq b)

  -- The last slot dropped from a queue that has the same items, `a` the last, the others in order.
  drop_last :
      (pq : PriorityQueue T) (a : ℕ) (sorted : PriorityQueue T)
      → 0 < len pq
      → len sorted ≡ len pq
      → slot sorted (len pq - 1) ≡ a
      → IsIndexed sorted
      → IsOrdered (len pq - 1) (priority_at sorted)
      → ((b : ℕ) → find sorted b ≡ find pq b)
      → ((pop sorted).1 ≡ a) × IsWithout pq a (pop sorted).0
  unfolding pop
  drop_last pq a sorted some_left size last indexed in_order finds =
      let same : len sorted - 1 ≡ len pq - 1 = omega arith in
      let last' : slot sorted (len sorted - 1) ≡ a = rw same last in
      let cut = pop-IsCut sorted (omega arith) indexed (rw same in_order) in
      (
        last',
        record {
          heap = record { indexed = cut.indexed; in_order = cut.in_order };
          size = omega (arith, cut.size);
          finds = λ b. ground (arith, cut.finds b, last', finds b);
        },
      )

  -- The same when the slots of an exchange with the last one were rearranged.
  drop_exchanged :
      (pq : PriorityQueue T) (i : ℕ) (sorted : PriorityQueue T)
      → IsHeap pq
      → i < len pq
      → IsRearranged (len pq - 1) (swap pq i (len pq - 1)) sorted
      → IsOrdered (len pq - 1) (priority_at sorted)
      → ((pop sorted).1 ≡ slot pq i) × IsWithout pq (slot pq i) (pop sorted).0
  drop_exchanged pq i sorted h inside r in_order =
      let n = len pq - 1 in
      let exchanged = swap pq i n in
      let s = swap-IsRearranged (len pq) pq i n (omega arith) inside (omega arith) in
      drop_last pq (slot pq i) sorted (omega arith) (omega (arith, r.size, s.size))
        (ground (arith, r.beyond n, slot-swap pq i n n inside (omega arith)))
        (r.indexed (s.indexed h.indexed)) in_order
        (λ b.
          find-rearranged n exchanged sorted (omega (arith, s.size)) r b
          ∙ find-rearranged (len pq) pq exchanged (omega arith) s b)

  -- What the exchange leaves at `i` is a hole.
  exchanged-HasHole :
      (pq : PriorityQueue T) (i : ℕ)
      → IsHeap pq
      → i < len pq
      → HasHole (len pq - 1) (priority_at (swap pq i (len pq - 1))) i
  exchanged-HasHole pq i h inside =
      IsOrdered-HasHole (len pq - 1) (priority_at pq) (priority_at (swap pq i (len pq - 1))) i
        (λ c pos lt. h.in_order c pos (omega arith))
        (λ c lt ne. ground (arith, swap-IsExchange pq i (len pq - 1) inside (omega arith) c))

  -- On a heap in order that is not empty, PopItem never panics and takes out the item that Peek
  -- shows; the heap is in order again and every other item is found as before.
  pub pop_item_lem :
      (pq : PriorityQueue T)
      → IsHeap pq
      → 0 < len pq
      → (a : ℕ) × (pq' : PriorityQueue T) × (pop_item pq ≡ some (pq', a))
        × (peek pq ≡ some a)
        × IsWithout pq a pq'
  unfolding pop_item peek
  pop_item_lem pq h some_left =
      let n = len pq - 1 in
      let exchanged = swap pq 0 n in
      let sorted = (down (n + 1) exchanged 0 n).0 in
      let fits : n ≤ len exchanged = omega (arith, len-swap pq 0 n) in
      let (same, without) =
        drop_exchanged pq 0 sorted h some_left (down-IsRearranged (n + 1) n exchanged 0 fits)
          (down-IsOrdered n exchanged fits (exchanged-HasHole pq 0 h some_left)) in
      (slot pq 0, (pop sorted).0, ground (arith, same), ground arith, without)

  pub remove_lem :
      (pq : PriorityQueue T) (a : ℕ) (x : T × ℕ)
      → IsHeap pq
      → find pq a ≡ some x
      → (pq' : PriorityQueue T) × (remove pq a ≡ some pq') × IsWithout pq a pq'
  unfolding remove
  remove_lem pq a x h e =
      let ((i, inside, at), v, p) = found-IsQueued pq a x e in
      let own : PriorityQueueItem.index (pq.items a) ≡ some i =
        subst (λ b. PriorityQueueItem.index (pq.items b) ≡ some i) at (h.indexed.knows i inside) in
      let n = len pq - 1 in
      let exchanged = swap pq i n in
      let fits : n ≤ len exchanged = omega (arith, len-swap pq i n) in
      let here : ltb i (len pq) ≡ true = ground arith in
      elim (Bool-cases (nat_beq n i)) [
        | (inl f) ↦ (
          (pop pq).0,
          rw (own, remove, here, f) refl,
          (drop_last pq a pq (omega arith) refl (ground (arith, at)) h.indexed
              (λ c pos lt. h.in_order c pos (omega arith)) (λ b. refl)).1,
        )
        | (inr f) ↦
            let lower : i < n = ground arith in
            (
              (pop (settle exchanged i n)).0,
              rw (own, remove, here, f) refl,
              subst (λ b. IsWithout pq b (pop (settle exchanged i n)).0) at
                  (drop_exchanged pq i (settle exchanged i n) h inside
                    (settle-IsRearranged n exchanged i fits lower)
                    (settle-IsOrdered n exchanged i fits lower
                      (exchanged-HasHole pq i h inside))).1,
            )
      ]

  -- The queue with one item's priority written.
  abbrev reprioritized : PriorityQueue T → ℕ → ℕ → PriorityQueue T
  reprioritized pq a priority = record pq {
    items = set_item pq.items a (record (pq.items a) { priority = priority });
  }

  reprioritized-HasHole :
      (pq : PriorityQueue T) (i priority : ℕ)
      → IsHeap pq
      → i < len pq
      → HasHole (len pq) (priority_at (reprioritized pq (slot pq i) priority)) i
  reprioritized-HasHole pq i priority h inside =
      IsOrdered-HasHole (len pq) (priority_at pq)
        (priority_at (reprioritized pq (slot pq i) priority)) i h.in_order
        (λ c lt ne. ground (arith, h.indexed.knows c, h.indexed.knows i))

  reprioritized-IsIndexed :
      (pq : PriorityQueue T) (a priority : ℕ)
      → IsIndexed pq
      → IsIndexed (reprioritized pq a priority)
  reprioritized-IsIndexed pq a priority v = record {
    knows = λ c lt. ground (arith, v.knows c lt);
    allocated = v.allocated;
  }

  find-reprioritized :
      (pq : PriorityQueue T) (a priority : ℕ) (x : T × ℕ)
      → find pq a ≡ some x
      → (b : ℕ)
      → find (reprioritized pq a priority) b
        ≡ (if nat_beq b a then some (x.0, priority) else find pq b)
  unfolding find
  find-reprioritized pq a priority x e b = ground arith

  -- On a heap in order, updating the priority of a queued item never panics; the heap is in order
  -- again, the item has the new priority and its value, and every other item is found as before.
  pub update_lem :
      (pq : PriorityQueue T) (a priority : ℕ) (x : T × ℕ)
      → IsHeap pq
      → find pq a ≡ some x
      → (pq' : PriorityQueue T) × (update pq a priority ≡ some pq')
        × IsHeap pq'
        × ((b : ℕ) → find pq' b ≡ (if nat_beq b a then some (x.0, priority) else find pq b))
  unfolding update
  update_lem pq a priority x h e =
      let ((i, inside, at), v, p) = found-IsQueued pq a x e in
      let own : PriorityQueueItem.index (pq.items a) ≡ some i =
        subst (λ b. PriorityQueueItem.index (pq.items b) ≡ some i) at (h.indexed.knows i inside) in
      let written = reprioritized pq a priority in
      let here : ltb i (len pq) ≡ true = ground arith in
      let r = settle-IsRearranged (len pq) written i (omega arith) inside in
      let hole =
        subst (λ b. HasHole (len pq) (priority_at (reprioritized pq b priority)) i) at
          (reprioritized-HasHole pq i priority h inside) in
      (
        settle written i (len pq),
        ground (arith, own, here),
        record {
          indexed = r.indexed (reprioritized-IsIndexed pq a priority h.indexed);
          in_order = rw r.size (settle-IsOrdered (len pq) written i (omega arith) inside hole);
        },
        λ b.
            find-rearranged (len pq) written (settle written i (len pq)) (omega arith) r b
            ∙ find-reprioritized pq a priority x e b,
      )

  pub new_priority_queue-IsHeap : (zero_value : T) → IsHeap (new_priority_queue zero_value)
  new_priority_queue-IsHeap zero_value = record {
    indexed = record {
      knows = λ c h. absurd (omega arith);
      allocated = λ c h. absurd (omega arith);
    };
    in_order = λ c pos h. absurd (omega arith);
  }

  pub find-new : (zero_value : T) (a : ℕ) → find (new_priority_queue zero_value) a ≡ none
  find-new zero_value a =
      find_missing (new_priority_queue zero_value) a (λ c h. absurd (omega arith))
