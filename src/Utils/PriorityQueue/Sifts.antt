-- ===== src/Utils/PriorityQueue/Sifts.antt =====
-- utils/priority_queue.go, the order of the heap, over the priorities by slot: what holds while an
-- entry sinks or climbs, and that a round keeps it.
use anycable.Prelude.{ℕ, ◌+◌, ◌-◌, ◌*◌, ◌/◌, ◌≤◌, ◌<◌, ◌≡◌, ◌≢◌, ◌⊎◌, nat_beq, if◌then◌else◌, arith}

abbrev pub parent : ℕ → ℕ
parent c = (c - 1) / 2

-- No slot below `n` has a lower priority than its parent.
abbrev pub IsOrdered : ℕ → (ℕ → ℕ) → Type 0
IsOrdered n p = (c : ℕ) → 0 < c → c < n → p (parent c) ≤ p c

-- The same but for the slot `i`: its own edges are open, and its children are in order with its
-- parent.
pub record HasHole (n : ℕ) (p : ℕ → ℕ) (i : ℕ) : Type 0 where
  pub edges : (c : ℕ) → 0 < c → c < n → c ≢ i → parent c ≢ i → p (parent c) ≤ p c
  pub bridged : (c : ℕ) → 0 < c → c < n → parent c ≡ i → 0 < i → p (parent i) ≤ p c

abbrev pub IsAbove : (ℕ → ℕ) → ℕ → Type 0
IsAbove p i = 0 < i → p (parent i) ≤ p i

abbrev pub IsBelow : ℕ → (ℕ → ℕ) → ℕ → Type 0
IsBelow n p i = (c : ℕ) → 0 < c → c < n → parent c ≡ i → p i ≤ p c

-- `q` is `p` with two slots exchanged.
abbrev pub IsExchange : (ℕ → ℕ) → (ℕ → ℕ) → ℕ → ℕ → Type 0
IsExchange p q i j = (c : ℕ) → q c ≡ (if nat_beq c i then p j else if nat_beq c j then p i else p c)

pub ordered :
    (n : ℕ) (p : ℕ → ℕ) (i : ℕ) → HasHole n p i → IsAbove p i → IsBelow n p i → IsOrdered n p
ordered n p i hole above below c pos inside = ground (arith, hole.edges c, below c)

pub IsOrdered-HasHole :
    (n : ℕ) (p q : ℕ → ℕ) (i : ℕ)
    → IsOrdered n p
    → ((c : ℕ) → c < n → c ≢ i → q c ≡ p c)
    → HasHole n q i
IsOrdered-HasHole n p q i h same = record {
  edges = λ c pos inside ne np. ground (arith, h c, same c, same (parent c));
  bridged = λ c pos inside e ip. ground (arith, h c, h i, same c, same (parent i));
}

-- The child `j` of `i` with the lower priority.
pub record IsLeast (n : ℕ) (p : ℕ → ℕ) (i j : ℕ) : Type 0 where
  pub inside : j < n
  pub child : (j ≡ 2 * i + 1) ⊎ (j ≡ 2 * i + 2)
  pub least : (c : ℕ) → 0 < c → c < n → parent c ≡ i → p j ≤ p c

module _ (n : ℕ) (p q : ℕ → ℕ) (i j : ℕ) where
  pub sink-HasHole :
      HasHole n p i → IsLeast n p i j → p j < p i → IsExchange p q i j → HasHole n q j
  sink-HasHole hole m lower swapped = record {
    edges = λ c pos inside ne np. ground (
      arith,
      m.child,
      swapped c,
      swapped (parent c),
      hole.edges c,
      hole.bridged c,
      m.least c,
      hole.bridged j,
    );
    bridged =
        λ c pos inside e jp. ground (arith, m.child, swapped c, swapped (parent j), hole.edges c);
  }

  pub sink-IsAbove : IsLeast n p i j → p j < p i → IsExchange p q i j → IsAbove q j
  sink-IsAbove m lower swapped jp = ground (arith, m.child, swapped j, swapped (parent j))

  pub climb-HasHole :
      HasHole n p j
      → IsBelow n p j
      → i ≡ parent j
      → 0 < j
      → p j < p i
      → IsExchange p q i j
      → HasHole n q i
  climb-HasHole hole below e pos lower swapped = record {
    edges = λ c cp inside ne np.
        ground (arith, swapped c, swapped (parent c), hole.edges c, hole.bridged c);
    bridged = λ c cp inside ec ip.
        ground (arith, swapped c, swapped (parent i), hole.edges c, hole.edges i, below c);
  }

  pub climb-IsBelow :
      HasHole n p j → i ≡ parent j → 0 < j → p j < p i → IsExchange p q i j → IsBelow n q i
  climb-IsBelow hole e pos lower swapped c cp inside ec =
      ground (arith, swapped c, swapped i, hole.edges c)
