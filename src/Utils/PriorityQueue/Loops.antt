-- ===== src/Utils/PriorityQueue/Loops.antt =====
-- utils/priority_queue.go and the loops of container/heap: `up` and `down` rearrange the slots, run
-- to their end on the rounds they are given, and put the heap in order.
use anycable.Prelude.{
  ℕ, zero, suc, ◌+◌, ◌*◌, ◌<◌, ◌≤◌, ◌≡◌, inl, inr, ◌||◌, not, arith, refl, ltb, leb, nat_beq, subst,
  sym, Bool-cases,
}
use anycable.Utils.PriorityQueue.{
  PriorityQueue, len, priority_at, less, swap, up, smaller_child, down, settle,
}
use anycable.Utils.PriorityQueue.Sifts.{
  parent, IsOrdered, HasHole, IsAbove, IsBelow, IsLeast, ordered, sink-HasHole, sink-IsAbove,
  climb-HasHole, climb-IsBelow,
}
use anycable.Utils.PriorityQueue.Swaps.{
  IsRearranged, IsRearranged-refl, IsRearranged-trans, swap-IsRearranged, swap-IsExchange, len-swap,
}

module _ {T : Type 0} where
  pub up-IsRearranged :
      (rounds n : ℕ) (pq : PriorityQueue T) (j : ℕ)
      → n ≤ len pq
      → j < n
      → IsRearranged n pq (up rounds pq j)
  unfolding up
  up-IsRearranged zero n pq j fits inside = IsRearranged-refl n pq
  up-IsRearranged (suc rounds) n pq j fits inside =
      elim (Bool-cases (nat_beq (parent j) j || not (less pq j (parent j)))) [
        | (inl stop) ↦ rw stop (IsRearranged-refl n pq)
        | (inr go) ↦ rw go (
            IsRearranged-trans n pq (swap pq (parent j) j)
              (up rounds (swap pq (parent j) j) (parent j))
              (swap-IsRearranged n pq (parent j) j fits (omega arith) inside)
              (up-IsRearranged rounds n (swap pq (parent j) j) (parent j)
                (omega (arith, len-swap pq (parent j) j)) (omega arith)))
      ]

  pub up-IsOrdered :
      (rounds n : ℕ) (pq : PriorityQueue T) (j : ℕ)
      → n ≤ len pq
      → j < n
      → j < rounds
      → HasHole n (priority_at pq) j
      → IsBelow n (priority_at pq) j
      → IsOrdered n (priority_at (up rounds pq j))
  unfolding up less
  up-IsOrdered zero n pq j fits inside enough hole below = absurd (omega arith)
  up-IsOrdered (suc rounds) n pq j fits inside enough hole below =
      elim (Bool-cases (nat_beq (parent j) j || not (less pq j (parent j)))) [
        | (inl stop) ↦ rw stop (ordered n (priority_at pq) j hole (λ pos. ground arith) below)
        | (inr go) ↦
            let swapped = swap-IsExchange pq (parent j) j (omega arith) (omega arith) in
            let pq' = swap pq (parent j) j in
            rw go (
              up-IsOrdered rounds n pq' (parent j) (omega (arith, len-swap pq (parent j) j))
                (omega arith) (ground arith)
                (climb-HasHole n (priority_at pq) (priority_at pq') (parent j) j hole below refl
                  (ground arith) (ground arith) swapped)
                (climb-IsBelow n (priority_at pq) (priority_at pq') (parent j) j hole refl
                  (ground arith) (ground arith) swapped))
      ]

  smaller_child-IsLeast :
      (n : ℕ) (pq : PriorityQueue T) (i : ℕ)
      → 2 * i + 1 < n
      → IsLeast n (priority_at pq) i (smaller_child pq i n)
  unfolding less
  smaller_child-IsLeast n pq i h = record {
    inside = ground arith;
    child = elim (Bool-cases (nat_beq (smaller_child pq i n) (2 * i + 1))) [
      | (inl e) ↦ inl (ground arith)
      | (inr e) ↦ inr (ground arith)
    ];
    least = λ c pos inside e. elim (Bool-cases (nat_beq c (2 * i + 1))) [
      | (inl e') ↦ ground arith
      | (inr e') ↦
          let other : c ≡ 2 * i + 1 + 1 = ground arith in
          subst (λ x. priority_at pq (smaller_child pq i n) ≤ priority_at pq x) (sym other)
            (ground arith)
    ];
  }

  -- The two ways through a round of `down`.
  data Round (n : ℕ) (pq : PriorityQueue T) (i : ℕ) (rest : PriorityQueue T × ℕ)
      : PriorityQueue T × ℕ → Type 0 where
    stays : IsBelow n (priority_at pq) i → Round n pq i rest (pq, i)
    sinks :
        IsLeast n (priority_at pq) i (smaller_child pq i n)
        → priority_at pq (smaller_child pq i n) < priority_at pq i
        → Round n pq i rest rest

  round :
      (rounds n : ℕ) (pq : PriorityQueue T) (i : ℕ)
      → Round n pq i
          (down rounds (swap pq i (smaller_child pq i n)) (smaller_child pq i n) n)
          (down (suc rounds) pq i n)
  unfolding down less
  round rounds n pq i = elim (Bool-cases (leb n (2 * i + 1))) [
    | (inl e) ↦ rw e (stays (λ c pos inside child. ground arith))
    | (inr e) ↦
        let m = smaller_child-IsLeast n pq i (ground arith) in
        elim (Bool-cases (less pq (smaller_child pq i n) i)) [
          | (inl f) ↦ rw (e, f) (sinks m (ground arith))
          | (inr f) ↦ rw (e, f) (stays (λ c pos inside child. ground (arith, m.least c)))
        ]
  ]

  Round-IsRearranged :
      (n : ℕ) (pq : PriorityQueue T) (i : ℕ) (rest result : PriorityQueue T × ℕ)
      → Round n pq i rest result
      → n ≤ len pq
      → (smaller_child pq i n < n → IsRearranged n (swap pq i (smaller_child pq i n)) rest.0)
      → IsRearranged n pq result.0
  Round-IsRearranged n pq i rest _ (stays below) fits further = IsRearranged-refl n pq
  Round-IsRearranged n pq i rest _ (sinks m lower) fits further =
      IsRearranged-trans n pq (swap pq i (smaller_child pq i n)) rest.0
        (swap-IsRearranged n pq i (smaller_child pq i n) fits (ground (arith, m.child, m.inside))
          m.inside)
        (further m.inside)

  pub down-IsRearranged :
      (rounds n : ℕ) (pq : PriorityQueue T) (i : ℕ)
      → n ≤ len pq
      → IsRearranged n pq (down rounds pq i n).0
  unfolding down
  down-IsRearranged zero n pq i fits = IsRearranged-refl n pq
  down-IsRearranged (suc rounds) n pq i fits =
      let m = smaller_child pq i n in
      Round-IsRearranged n pq i (down rounds (swap pq i m) m n) _ (round rounds n pq i) fits
        (λ inside. down-IsRearranged rounds n (swap pq i m) m (omega (arith, len-swap pq i m)))

  -- What a run of `down` from a hole ends in, when its first parent is in order or not.
  record Sunk (n : ℕ) (pq : PriorityQueue T) (i : ℕ) (result : PriorityQueue T × ℕ) : Type 0 where
    lower : i ≤ result.1
    whole : IsAbove (priority_at pq) i → IsOrdered n (priority_at result.0)
    moved : i < result.1 → IsOrdered n (priority_at result.0)
    unmoved : result.1 ≡ i → (result.0 ≡ pq) × IsBelow n (priority_at pq) i

  Round-Sunk :
      (n : ℕ) (pq : PriorityQueue T) (i : ℕ) (rest result : PriorityQueue T × ℕ)
      → Round n pq i rest result
      → n ≤ len pq
      → HasHole n (priority_at pq) i
      → (smaller_child pq i n < n
          → HasHole n (priority_at (swap pq i (smaller_child pq i n))) (smaller_child pq i n)
          → Sunk n (swap pq i (smaller_child pq i n)) (smaller_child pq i n) rest)
      → Sunk n pq i result
  Round-Sunk n pq i rest _ (stays below) fits hole further = record {
    lower = omega arith;
    whole = λ above. ordered n (priority_at pq) i hole above below;
    moved = λ h. absurd (omega arith);
    unmoved = λ e. (refl, below);
  }
  Round-Sunk n pq i rest _ (sinks m low) fits hole further =
      let j = smaller_child pq i n in
      let swapped = swap-IsExchange pq i j (ground (arith, m.child)) (omega (arith, m.inside)) in
      let p = priority_at pq in
      let q = priority_at (swap pq i j) in
      let sunk = further m.inside (sink-HasHole n p q i j hole m low swapped) in
      let whole = sunk.whole (sink-IsAbove n p q i j m low swapped) in
      record {
        lower = ground (arith, m.child, sunk.lower);
        whole = λ above. whole;
        moved = λ h. whole;
        unmoved = λ e. absurd (ground (arith, m.child, sunk.lower));
      }

  down-Sunk :
      (rounds n : ℕ) (pq : PriorityQueue T) (i : ℕ)
      → n ≤ len pq
      → n < i + rounds
      → HasHole n (priority_at pq) i
      → Sunk n pq i (down rounds pq i n)
  unfolding down
  down-Sunk zero n pq i fits enough hole =
      Round-Sunk n pq i (pq, i) (pq, i) (stays (λ c pos inside e. absurd (omega arith))) fits hole
        (λ inside h. absurd (ground arith))
  down-Sunk (suc rounds) n pq i fits enough hole =
      let m = smaller_child pq i n in
      Round-Sunk n pq i (down rounds (swap pq i m) m n) _ (round rounds n pq i) fits hole
        (λ inside h.
          down-Sunk rounds n (swap pq i m) m (omega (arith, len-swap pq i m)) (ground arith) h)

  pub down-IsOrdered :
      (n : ℕ) (pq : PriorityQueue T)
      → n ≤ len pq
      → HasHole n (priority_at pq) 0
      → IsOrdered n (priority_at (down (n + 1) pq 0 n).0)
  down-IsOrdered n pq fits hole =
      Sunk.whole (down-Sunk (n + 1) n pq 0 fits (omega arith) hole) (λ pos. absurd (omega arith))

  pub settle-IsOrdered :
      (n : ℕ) (pq : PriorityQueue T) (i : ℕ)
      → n ≤ len pq
      → i < n
      → HasHole n (priority_at pq) i
      → IsOrdered n (priority_at (settle pq i n))
  unfolding settle
  settle-IsOrdered n pq i fits inside hole =
      let sunk = down-Sunk (n + 1) n pq i fits (omega arith) hole in
      elim (Bool-cases (ltb i ((down (n + 1) pq i n).1))) [
        | (inl e) ↦ rw e (sunk.moved (ground arith))
        | (inr e) ↦
            let (same, below) = sunk.unmoved (ground (arith, sunk.lower)) in
            rw (e, same) (up-IsOrdered (i + 1) n pq i fits inside (omega arith) hole below)
      ]

  pub settle-IsRearranged :
      (n : ℕ) (pq : PriorityQueue T) (i : ℕ)
      → n ≤ len pq
      → i < n
      → IsRearranged n pq (settle pq i n)
  unfolding settle
  settle-IsRearranged n pq i fits inside =
      let sunk = down-IsRearranged (n + 1) n pq i fits in
      let pq' = (down (n + 1) pq i n).0 in
      elim (Bool-cases (ltb i ((down (n + 1) pq i n).1))) [
        | (inl e) ↦ rw e sunk
        | (inr e) ↦ rw e (
            IsRearranged-trans n pq pq' (up (i + 1) pq' i) sunk
              (up-IsRearranged (i + 1) n pq' i (omega (arith, sunk.size)) inside))
      ]
