-- ===== src/Utils/Queue/Invariant.antt =====
-- utils/queue.go: what holds of a queue between two calls, and the list that it stands for.
use anycable.Prelude.{
  uint64, ℕ, ◌+◌, ◌/◌, ◌%◌, ◌≤◌, ◌<◌, ◌≡◌, refl, ◌∙◌, List, [], ◌∷◌, ◌++◌, some, length, arith, All,
  true, false, ◌⊎◌, length-replicate, nat_beq,
}
use anycable.Utils.Queue.{Queue, Item, zero_item, resize, clear_locked}
use anycable.Utils.Queue.Ring.{wrap, window, mod-wrap}
use anycable.Utils.Queue.Resize.{relocate-Relocated}

module _ {T : Type 0} where
  unfoldable pub total : List (Item T) → ℕ
  total [] = 0
  total (i ∷ is) = i.size + total is

  pub total-append : (xs ys : List (Item T)) → total (xs ++ ys) ≡ total xs + total ys
  unfolding total
  total-append [] ys = omega arith
  total-append (x ∷ xs) ys = omega (arith, total-append xs ys)

  abbrev pub IsSmall : Item T → Type 0
  IsSmall i = i.size < uint64

module _ {T : Type 0} (z : T) where
  -- Oldest first.
  abbrev pub contents : Queue T → List (Item T)
  contents q = window (zero_item z) q.nodes q.head q.cnt

  -- The indices describe a window of the slice.
  pub record IsRing (q : Queue T) : Type 0 where
    pub head_in : q.head < length q.nodes
    pub cnt_le : q.cnt ≤ length q.nodes
    pub tail_eq : q.tail ≡ wrap (q.head + q.cnt) (length q.nodes)

  -- Sizes are uint64 and add up, modulo 2^64.
  pub record IsWeighed (q : Queue T) : Type 0 where
    pub small : All IsSmall (contents q)
    pub size_eq : q.size ≡ total (contents q) % uint64

  -- A slice that could be halved is more than half full, so `resize` never drops an item.
  abbrev pub IsDense : Queue T → Type 0
  IsDense q = q.init_cap ≤ length q.nodes / 2 → length q.nodes / 2 < q.cnt

  pub record IsOpen (q : Queue T) : Type 0 where
    pub cap_pos : 0 < q.init_cap
    pub ring : IsRing q
    pub weighed : IsWeighed q
    pub dense : IsDense q

  pub record IsClosed (q : Queue T) : Type 0 where
    pub cap_pos : 0 < q.init_cap
    pub nothing : q.cnt ≡ 0
    pub weightless : q.size ≡ 0

  -- A queue is open and well formed, or closed and empty.
  abbrev pub IsValid : Queue T → Type 0
  IsValid q = ((q.closed ≡ false) × IsOpen q) ⊎ ((q.closed ≡ true) × IsClosed q)

  -- The queue `r` holds what `q` holds, in a slice of length `n`.
  pub record IsResized (q r : Queue T) (n : ℕ) : Type 0 where
    pub ring : IsRing r
    pub len : length r.nodes ≡ n
    pub same : contents r ≡ contents q
    pub cnt : r.cnt ≡ q.cnt
    pub size : r.size ≡ q.size
    pub closed : r.closed ≡ q.closed
    pub init_cap : r.init_cap ≡ q.init_cap

  pub resize-IsResized :
      (q : Queue T) (n : ℕ)
      → IsRing q
      → 0 < q.cnt
      → q.cnt ≤ n
      → (r : Queue T) × (resize z q n ≡ some r) × IsResized q r n
  unfolding resize
  resize-IsResized q n v pos fit =
      let (ns, e, len, w) = relocate-Relocated z q n v.head_in pos v.cnt_le v.tail_eq fit in
      let nz : nat_beq n 0 ≡ false = ground arith in
      (
        record q { nodes = ns; head = 0; tail = q.cnt % n },
        rw (e, nz),
        record {
          ring = record {
            head_in = omega arith;
            cnt_le = omega arith;
            tail_eq = mod-wrap q.cnt n (omega arith) ∙ rw len (ground arith);
          };
          len = len;
          same = w;
          cnt = refl;
          size = refl;
          closed = refl;
          init_cap = refl;
        },
      )

  pub empty-IsOpen :
      (q : Queue T)
      → 0 < q.init_cap
      → IsOpen (clear_locked z q) × (contents (clear_locked z q) ≡ [])
  unfolding clear_locked window total
  empty-IsOpen q p = (
    record {
      cap_pos = p;
      ring = record {
        head_in = omega (arith, length-replicate q.init_cap (zero_item z));
        cnt_le = omega arith;
        tail_eq = ground (arith, length-replicate q.init_cap (zero_item z));
      };
      weighed = record { small = tt; size_eq = refl };
      dense = λ h. absurd (omega (arith, length-replicate q.init_cap (zero_item z)));
    },
    refl,
  )
