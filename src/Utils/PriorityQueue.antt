-- ===== src/Utils/PriorityQueue.antt =====
-- utils/priority_queue.go: the heap of items by priority, with the parts of Go's container/heap it
-- runs on (Push, Pop, Fix, Remove and their loops up and down). An item is a pointer that its owner
-- keeps, so it is an address here: `items` is the memory, `slots` the slice of pointers, and `fresh`
-- the next address. An index of -1 is `none`. A Go panic (an index out of range) is the result
-- `none`. The memory holds a zero item where nothing was allocated.
pub mod Swaps
pub mod Sifts
pub mod Loops
pub mod View
pub mod Pushes
pub mod Laws
use anycable.Prelude.{
  ℕ, zero, suc, ◌+◌, ◌-◌, ◌*◌, ◌/◌, ◌<◌, Bool, true, false, ◌&&◌, ◌||◌, not, Option, none, some,
  List, [], ◌∷◌, ◌++◌, ltb, leb, nat_beq, if◌then◌else◌, length, get_or, set, take,
}

pub record PriorityQueueItem (T : Type 0) : Type 0 where
  pub value : T
  pub priority : ℕ
  pub index : Option ℕ

pub record PriorityQueue (T : Type 0) : Type 0 where
  pub slots : List ℕ
  pub items : ℕ → PriorityQueueItem T
  pub fresh : ℕ

abbrev pub new_priority_queue : {T : Type 0} → T → PriorityQueue T
new_priority_queue zero_value = record {
  slots = [];
  items = λ a. record { value = zero_value; priority = 0; index = none };
  fresh = 0;
}

module _ {T : Type 0} where
  -- Memory with the index of one item written.
  abbrev pub set_index : (ℕ → PriorityQueueItem T) → ℕ → Option ℕ → ℕ → PriorityQueueItem T
  set_index items a i b = if nat_beq b a then record (items b) { index = i } else items b

  abbrev pub set_item :
      (ℕ → PriorityQueueItem T) → ℕ → PriorityQueueItem T → ℕ → PriorityQueueItem T
  set_item items a x b = if nat_beq b a then x else items b

  abbrev pub len : PriorityQueue T → ℕ
  len pq = length pq.slots

  abbrev pub slot : PriorityQueue T → ℕ → ℕ
  slot pq i = get_or pq.slots i 0

  abbrev pub priority_at : PriorityQueue T → ℕ → ℕ
  priority_at pq i = PriorityQueueItem.priority (pq.items (slot pq i))

  unfoldable pub less : PriorityQueue T → ℕ → ℕ → Bool
  less pq i j = ltb (priority_at pq i) (priority_at pq j)

  unfoldable pub swap : PriorityQueue T → ℕ → ℕ → PriorityQueue T
  swap pq i j = record pq {
    slots = set (set pq.slots i (slot pq j)) j (slot pq i);
    items = set_index (set_index pq.items (slot pq j) (some i)) (slot pq i) (some j);
  }

  -- heap.up. The round's parent is `(j - 1) / 2`, which is 0 at the root also in Go.
  unfoldable pub up : ℕ → PriorityQueue T → ℕ → PriorityQueue T
  up zero pq j = pq
  up (suc rounds) pq j =
      let i = (j - 1) / 2 in
      let rest = up rounds (swap pq i j) i in if nat_beq i j || not (less pq j i) then pq else rest

  abbrev pub smaller_child : PriorityQueue T → ℕ → ℕ → ℕ
  smaller_child pq i n =
      let j = 2 * i + 1 in if ltb (j + 1) n && less pq (j + 1) j then j + 1 else j

  -- heap.down, with the slot where the loop ends: the code returns whether that is not the first.
  unfoldable pub down : ℕ → PriorityQueue T → ℕ → ℕ → PriorityQueue T × ℕ
  down zero pq i n = (pq, i)
  down (suc rounds) pq i n =
      let j = smaller_child pq i n in
      let rest = down rounds (swap pq i j) j n in
      if leb n (2 * i + 1) then (pq, i) else if less pq j i then rest else (pq, i)

  -- What heap.Fix and heap.Remove do at a slot: down, and up if that moved nothing.
  unfoldable pub settle : PriorityQueue T → ℕ → ℕ → PriorityQueue T
  unfolding up down
  settle pq i n =
      let sunk = down (n + 1) pq i n in if ltb i sunk.1 then sunk.0 else up (i + 1) sunk.0 i

  -- The methods Push and Pop of heap.Interface.
  unfoldable pub push : PriorityQueue T → ℕ → PriorityQueue T
  push pq a = record pq { slots = pq.slots ++ a ∷ []; items = set_index pq.items a (some (len pq)) }

  unfoldable pub pop : PriorityQueue T → PriorityQueue T × ℕ
  pop pq =
      let a = slot pq (len pq - 1) in
      (record pq { slots = take (len pq - 1) pq.slots; items = set_index pq.items a none }, a)

  unfoldable pub push_item : PriorityQueue T → T → ℕ → PriorityQueue T × ℕ
  unfolding push up
  push_item pq v priority =
      let a = pq.fresh in
      let item : PriorityQueueItem T = record { value = v; priority = priority; index = some 0 } in
      let pq' = push (record pq { items = set_item pq.items a item; fresh = a + 1 }) a in
      (up (len pq + 1) pq' (len pq), a)

  unfoldable pub pop_item : PriorityQueue T → Option (PriorityQueue T × ℕ)
  unfolding swap down pop
  pop_item pq =
      let n = len pq - 1 in
      if nat_beq (len pq) 0 then none else some (pop ((down (n + 1) (swap pq 0 n) 0 n).0))

  -- An item that is not queued has the index -1, at which heap.Fix moves nothing.
  unfoldable pub update : PriorityQueue T → ℕ → ℕ → Option (PriorityQueue T)
  unfolding settle
  update pq a priority =
      let item = pq.items a in
      let pq' = record pq { items = set_item pq.items a (record item { priority = priority }) } in
      elim item.index [
        | none ↦ some pq'
        | some i ↦
            if ltb i (len pq)
            then some (settle pq' i (len pq))
            else if nat_beq i 0
            then some pq'
            else none
      ]

  unfoldable pub peek : PriorityQueue T → Option ℕ
  peek pq = if ltb 0 (len pq) then some (slot pq 0) else none

  unfoldable pub remove : PriorityQueue T → ℕ → Option (PriorityQueue T)
  unfolding swap settle pop
  remove pq a = elim (PriorityQueueItem.index (pq.items a)) [
    | none ↦ none
    | some i ↦
        let n = len pq - 1 in
        if ltb i (len pq)
        then some ((pop (if nat_beq n i then pq else settle (swap pq i n) i n)).0)
        else none
  ]
