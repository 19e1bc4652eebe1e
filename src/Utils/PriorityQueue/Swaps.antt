-- ===== src/Utils/PriorityQueue/Swaps.antt =====
-- utils/priority_queue.go, `Swap`: what a rearrangement of the slots keeps, which is the items and
-- which of them are queued, with every index true.
use anycable.Prelude.{
  ℕ, ◌<◌, ◌≤◌, ◌≡◌, ◌≢◌, ◌∙◌, some, arith, refl, nat_beq, if◌then◌else◌, set, length-set,
  get_or-set_ne, get_or-set_self,
}
use anycable.Utils.PriorityQueue.{PriorityQueue, PriorityQueueItem, len, slot, priority_at, swap}
use anycable.Utils.PriorityQueue.Sifts.{IsExchange}

-- The slot that an exchange of two gives and takes from.
abbrev partner : ℕ → ℕ → ℕ → ℕ
partner i j c = if nat_beq c i then j else if nat_beq c j then i else c

module _ {T : Type 0} where
  -- The item at `a` is in a slot below `n`.
  abbrev pub IsBefore : ℕ → PriorityQueue T → ℕ → Type 0
  IsBefore n pq a = (c : ℕ) × (c < n) × (slot pq c ≡ a)

  -- Every queued item knows its slot, and was allocated.
  pub record IsIndexed (pq : PriorityQueue T) : Type 0 where
    pub knows : (c : ℕ) → c < len pq → PriorityQueueItem.index (pq.items (slot pq c)) ≡ some c
    pub allocated : (c : ℕ) → c < len pq → slot pq c < pq.fresh

  -- `to` has the items of `from`, those below `n` perhaps in another order.
  pub record IsRearranged (n : ℕ) (from to : PriorityQueue T) : Type 0 where
    pub size : len to ≡ len from
    pub fresh : to.fresh ≡ from.fresh
    pub values :
        (a : ℕ) → PriorityQueueItem.value (to.items a) ≡ PriorityQueueItem.value (from.items a)
    pub priorities :
        (a : ℕ)
        → PriorityQueueItem.priority (to.items a) ≡ PriorityQueueItem.priority (from.items a)
    pub beyond : (c : ℕ) → n ≤ c → slot to c ≡ slot from c
    pub indexed : IsIndexed from → IsIndexed to
    pub keeps : (a : ℕ) → IsBefore n from a → IsBefore n to a
    pub adds_none : (a : ℕ) → IsBefore n to a → IsBefore n from a
    -- An item in no slot is left alone.
    pub others : (a : ℕ) → ((c : ℕ) → c < n → slot from c ≢ a) → to.items a ≡ from.items a

  pub IsRearranged-refl : (n : ℕ) (pq : PriorityQueue T) → IsRearranged n pq pq
  IsRearranged-refl n pq = record {
    size = refl;
    fresh = refl;
    values = λ a. refl;
    priorities = λ a. refl;
    beyond = λ c h. refl;
    indexed = λ v. v;
    keeps = λ a h. h;
    adds_none = λ a h. h;
    others = λ a h. refl;
  }

  pub IsRearranged-trans :
      (n : ℕ) (p q r : PriorityQueue T)
      → IsRearranged n p q
      → IsRearranged n q r
      → IsRearranged n p r
  IsRearranged-trans n p q r s t = record {
    size = omega (arith, s.size, t.size);
    fresh = omega (arith, s.fresh, t.fresh);
    values = λ a. t.values a ∙ s.values a;
    priorities = λ a. t.priorities a ∙ s.priorities a;
    beyond = λ c h. t.beyond c h ∙ s.beyond c h;
    indexed = λ v. t.indexed (s.indexed v);
    keeps = λ a h. t.keeps a (s.keeps a h);
    adds_none = λ a h. s.adds_none a (t.adds_none a h);
    others = λ a h.
        t.others a (λ c inside e. let (d, lt, e') = s.adds_none a (c, inside, e) in h d lt e')
        ∙ s.others a h;
  }

  pub slot-swap :
      (pq : PriorityQueue T) (i j c : ℕ)
      → i < len pq
      → j < len pq
      → slot (swap pq i j) c
        ≡ (if nat_beq c j then slot pq i else if nat_beq c i then slot pq j else slot pq c)
  unfolding swap
  slot-swap pq i j c hi hj =
      let once = set pq.slots i (slot pq j) in
      ground (
        arith,
        length-set pq.slots i (slot pq j),
        get_or-set_self once j (slot pq i) 0,
        get_or-set_ne once j c (slot pq i) 0,
        get_or-set_self pq.slots i (slot pq j) 0,
        get_or-set_ne pq.slots i c (slot pq j) 0,
      )

  pub len-swap : (pq : PriorityQueue T) (i j : ℕ) → len (swap pq i j) ≡ len pq
  unfolding swap
  len-swap pq i j =
      length-set (set pq.slots i (slot pq j)) j (slot pq i) ∙ length-set pq.slots i (slot pq j)

  pub priorities-swap :
      (pq : PriorityQueue T) (i j a : ℕ)
      → PriorityQueueItem.priority ((swap pq i j).items a) ≡ PriorityQueueItem.priority (pq.items a)
  unfolding swap
  priorities-swap pq i j a = ground arith

  pub swap-IsExchange :
      (pq : PriorityQueue T) (i j : ℕ)
      → i < len pq
      → j < len pq
      → IsExchange (priority_at pq) (priority_at (swap pq i j)) i j
  swap-IsExchange pq i j hi hj c =
      ground (arith, slot-swap pq i j c hi hj, priorities-swap pq i j (slot (swap pq i j) c))

  swap-IsIndexed :
      (pq : PriorityQueue T) (i j : ℕ)
      → i < len pq
      → j < len pq
      → IsIndexed pq
      → IsIndexed (swap pq i j)
  unfolding swap
  swap-IsIndexed pq i j hi hj v = record {
    knows = λ c h.
        ground
          (arith, len-swap pq i j, slot-swap pq i j c hi hj, v.knows c, v.knows i hi, v.knows j hj);
    allocated = λ c h. ground (
      arith,
      len-swap pq i j,
      slot-swap pq i j c hi hj,
      v.allocated c,
      v.allocated i hi,
      v.allocated j hj,
    );
  }

  pub swap-IsRearranged :
      (n : ℕ) (pq : PriorityQueue T) (i j : ℕ)
      → n ≤ len pq
      → i < n
      → j < n
      → IsRearranged n pq (swap pq i j)
  unfolding swap
  swap-IsRearranged n pq i j hn hi hj =
      let at = λ (c : ℕ). slot-swap pq i j c (omega arith) (omega arith) in
      record {
        size = len-swap pq i j;
        fresh = refl;
        values = λ a. ground arith;
        priorities = λ a. priorities-swap pq i j a;
        beyond = λ c h. ground (arith, at c);
        indexed = swap-IsIndexed pq i j (omega arith) (omega arith);
        keeps = λ a (c, h, e). (partner i j c, ground arith, ground (arith, at (partner i j c)));
        adds_none = λ a (c, h, e). (partner i j c, ground arith, ground (arith, at c));
        others = λ a h. ground (arith, h i, h j);
      }
