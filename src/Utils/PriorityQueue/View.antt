-- ===== src/Utils/PriorityQueue/View.antt =====
-- utils/priority_queue.go: the queue seen as a map from an item's address to its value and priority,
-- and what appending and dropping the last slot do to it.
use anycable.Prelude.{
  ℕ, zero, suc, ◌-◌, ◌/◌, ◌<◌, ◌≤◌, ◌≡◌, ◌≢◌, ◌∙◌, Bool, true, false, Option, none, some, List, [],
  ◌∷◌, arith, refl, nat_beq, ltb, if◌then◌else◌, length, get_or, take, contains, sym, subst, nat_eq,
  Bool-cases, inl, inr, get_or-take, length-take,
}
use anycable.Utils.PriorityQueue.{PriorityQueue, PriorityQueueItem, len, slot, priority_at, pop}
use anycable.Utils.PriorityQueue.Sifts.{IsOrdered}
use anycable.Utils.PriorityQueue.Swaps.{IsBefore, IsIndexed, IsRearranged}

same_test : (x y : Bool) → (x ≡ true → y ≡ true) → (y ≡ true → x ≡ true) → x ≡ y
same_test true y f g = sym (f refl)
same_test false true f g = g refl
same_test false false f g = refl

contains-get_or : (xs : List ℕ) (c : ℕ) → c < length xs → contains (get_or xs c 0) xs ≡ true
unfolding contains
contains-get_or [] c h = absurd (omega arith)
contains-get_or (x ∷ xs) zero h = ground arith
contains-get_or (x ∷ xs) (suc c) h = ground (arith, contains-get_or xs c)

contains_somewhere :
    (a : ℕ) (xs : List ℕ) → contains a xs ≡ true → (c : ℕ) × (c < length xs) × (get_or xs c 0 ≡ a)
unfolding contains
contains_somewhere a [] h = cc
contains_somewhere a (x ∷ xs) h = elim (Bool-cases (nat_beq x a)) [
  | (inl e) ↦ (0, omega arith, ground arith)
  | (inr e) ↦
      let (c, inside, at) = contains_somewhere a xs (ground arith) in (suc c, omega arith, at)
]

module _ {T : Type 0} where
  -- The value and the priority of the item at `a`, if it is queued.
  unfoldable pub find : PriorityQueue T → ℕ → Option (T × ℕ)
  find pq a =
      let item = pq.items a in
      if contains a pq.slots then some (item.value, item.priority) else none

  abbrev pub IsQueued : PriorityQueue T → ℕ → Type 0
  IsQueued pq a = IsBefore (len pq) pq a

  pub find-slot :
      (pq : PriorityQueue T) (c : ℕ)
      → c < len pq
      → find pq (slot pq c)
        ≡ some (PriorityQueueItem.value (pq.items (slot pq c)), priority_at pq c)
  unfolding find
  find-slot pq c h = rw (contains-get_or pq.slots c h) refl

  pub found-IsQueued :
      (pq : PriorityQueue T) (a : ℕ) (x : T × ℕ)
      → find pq a ≡ some x
      → IsQueued pq a
        × (PriorityQueueItem.value (pq.items a) ≡ x.0)
        × (PriorityQueueItem.priority (pq.items a) ≡ x.1)
  unfolding find
  found-IsQueued pq a x h = elim (Bool-cases (contains a pq.slots)) [
    | (inl e) ↦ (contains_somewhere a pq.slots e, ground arith, ground arith)
    | (inr e) ↦ absurd (ground arith)
  ]

  pub find_same :
      (from to : PriorityQueue T) (a : ℕ)
      → (IsQueued from a → IsQueued to a)
      → (IsQueued to a → IsQueued from a)
      → PriorityQueueItem.value (to.items a) ≡ PriorityQueueItem.value (from.items a)
      → PriorityQueueItem.priority (to.items a) ≡ PriorityQueueItem.priority (from.items a)
      → find to a ≡ find from a
  unfolding find
  find_same from to a there back values priorities =
      let same =
        same_test (contains a to.slots) (contains a from.slots)
          (λ h.
            let (c, inside, at) = back (contains_somewhere a to.slots h) in
            subst (λ x. contains x from.slots ≡ true) at (contains-get_or from.slots c inside))
          (λ h.
            let (c, inside, at) = there (contains_somewhere a from.slots h) in
            subst (λ x. contains x to.slots ≡ true) at (contains-get_or to.slots c inside)) in
      rw (same, values, priorities) refl

  pub find_missing :
      (pq : PriorityQueue T) (a : ℕ) → ((c : ℕ) → c < len pq → slot pq c ≢ a) → find pq a ≡ none
  unfolding find
  find_missing pq a absent = elim (Bool-cases (contains a pq.slots)) [
    | (inl e) ↦ let (c, inside, at) = contains_somewhere a pq.slots e in absurd (absent c inside at)
    | (inr e) ↦ rw e refl
  ]

  find-rearranged_IsQueued :
      (n : ℕ) (from to : PriorityQueue T) (a : ℕ)
      → len to ≡ len from
      → (IsBefore n from a → IsBefore n to a)
      → ((c : ℕ) → n ≤ c → slot to c ≡ slot from c)
      → n ≤ len to
      → IsQueued from a
      → IsQueued to a
  find-rearranged_IsQueued n from to a size keeps beyond fits (c, inside, at) =
      elim (Bool-cases (ltb c n)) [
        | (inl e) ↦ let (c', h, f) = keeps (c, ground arith, at) in (c', omega arith, f)
        | (inr e) ↦ (c, omega arith, beyond c (ground arith) ∙ at)
      ]

  pub find-rearranged :
      (n : ℕ) (from to : PriorityQueue T)
      → n ≤ len from
      → IsRearranged n from to
      → (a : ℕ) → find to a ≡ find from a
  find-rearranged n from to fits r a =
      find_same from to a
        (find-rearranged_IsQueued n from to a r.size (r.keeps a) r.beyond (omega (arith, r.size)))
        (find-rearranged_IsQueued n to from a (sym r.size) (r.adds_none a)
          (λ c h. sym (r.beyond c h)) fits)
        (r.values a) (r.priorities a)

  -- The last slot dropped, from a queue whose other slots are in order.
  pub record IsCut (pq : PriorityQueue T) (a : ℕ) (result : PriorityQueue T) : Type 0 where
    pub size : len result ≡ len pq - 1
    pub indexed : IsIndexed result
    pub in_order : IsOrdered (len result) (priority_at result)
    pub finds : (b : ℕ) → find result b ≡ (if nat_beq b a then none else find pq b)
    pub fresh : result.fresh ≡ pq.fresh

  pub pop-IsCut :
      (pq : PriorityQueue T)
      → 0 < len pq
      → IsIndexed pq
      → IsOrdered (len pq - 1) (priority_at pq)
      → IsCut pq (slot pq (len pq - 1)) (pop pq).0
  unfolding pop
  pop-IsCut pq some_left v h =
      let n = len pq - 1 in
      let at = λ (c : ℕ) (inside : c < n). get_or-take n pq.slots c 0 inside in
      let size : length (take n pq.slots) ≡ n = ground (arith, length-take n pq.slots) in
      let own = v.knows n (omega arith) in
      record {
        size = size;
        indexed = record {
          knows = λ c inside. ground (arith, size, at c, v.knows c, own);
          allocated = λ c inside. ground (arith, size, at c, v.allocated c);
        };
        in_order = λ c pos inside. ground (arith, size, at c, at ((c - 1) / 2), h c);
        finds = λ b. elim (Bool-cases (nat_beq b (slot pq n))) [
          | (inl e) ↦ rw e (
              find_missing (pop pq).0 b
                (λ c inside same. ground (arith, size, at c, v.knows c, own)))
          | (inr e) ↦ rw e (
              find_same pq (pop pq).0 b
                (λ (c, inside, same). (c, ground (arith, size), ground (arith, size, at c)))
                (λ (c, inside, same). (c, ground (arith, size), ground (arith, size, at c)))
                (ground arith) (ground arith))
        ];
        fresh = refl;
      }
