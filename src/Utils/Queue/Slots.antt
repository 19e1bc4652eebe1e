-- ===== src/Utils/Queue/Slots.antt =====
-- utils/queue.go: a write at the tail and a take at the head, on the window of live slots.
use anycable.Prelude.{
  uint64, ℕ, suc, ◌+◌, ◌-◌, ◌%◌, ◌<◌, ◌≡◌, refl, ap, ◌∙◌, sym, [], ◌∷◌, ◌++◌, some, length, arith,
  All, set, length-set, get_or-set_self, All-append, subst, get_or,
}
use anycable.Utils.Queue.{Queue, Item, zero_item, put_tail, take_head}
use anycable.Utils.Queue.Ring.{
  wrap, window, window-append, mod-wrap, set?-set, window-set, get_elem?-get_or,
}
use anycable.Utils.Queue.Invariant.{IsRing, IsWeighed, contents, IsSmall, total, total-append}

module _ {T : Type 0} (z : T) where
  -- What the window reads after a write at the tail.
  window-put :
      (q : Queue T) (i : Item T)
      → IsRing z q
      → q.cnt < length q.nodes
      → window (zero_item z) (set q.nodes q.tail i) q.head (q.cnt + 1) ≡ contents z q ++ i ∷ []
  unfolding window
  window-put q i v room =
      let z' = zero_item z in
      let ns = set q.nodes q.tail i in
      let len : length ns ≡ length q.nodes = length-set q.nodes q.tail i in
      let at : wrap (q.head + q.cnt) (length ns) ≡ q.tail = rw len (sym v.tail_eq) in
      let old : window z' ns q.head q.cnt ≡ contents z q =
        window-set z' q.nodes q.head q.cnt q.cnt q.tail i v.head_in (omega arith) room v.tail_eq in
      let new : get_or ns q.tail z' ≡ i =
        get_or-set_self q.nodes q.tail i z' (ground (arith, v.head_in, v.tail_eq)) in
      window-append z' ns q.head q.cnt 1 (omega (arith, v.head_in)) (omega arith)
      ∙ rw (at, old, new)

  -- Writing at the tail appends.
  pub record IsPut (q r : Queue T) (i : Item T) : Type 0 where
    pub ring : IsRing z r
    pub weighed : IsWeighed z r
    pub appended : contents z r ≡ contents z q ++ i ∷ []
    pub cnt : r.cnt ≡ q.cnt + 1
    pub len : length r.nodes ≡ length q.nodes
    pub closed : r.closed ≡ q.closed
    pub init_cap : r.init_cap ≡ q.init_cap

  pub put_tail-IsPut :
      (q : Queue T) (i : Item T)
      → IsRing z q
      → q.cnt < length q.nodes
      → IsSmall i
      → IsWeighed z q
      → (r : Queue T) × (put_tail z q i ≡ some r) × IsPut q r i
  unfolding put_tail total
  put_tail-IsPut q i v room sm w =
      let ns = set q.nodes q.tail i in
      let len : length ns ≡ length q.nodes = length-set q.nodes q.tail i in
      let inside : q.tail < length q.nodes = ground (arith, v.head_in, v.tail_eq) in
      let app = window-put q i v room in
      let m : (q.tail + 1) % length ns ≡ wrap (q.tail + 1) (length ns) =
        mod-wrap (q.tail + 1) (length ns) (omega arith) in
      (
        record q {
          nodes = ns;
          tail = (q.tail + 1) % length ns;
          size = (q.size + i.size) % uint64;
          cnt = q.cnt + 1;
        },
        rw (set?-set q.nodes q.tail i inside),
        record {
          ring = record {
            head_in = omega (arith, v.head_in);
            cnt_le = omega arith;
            tail_eq = m ∙ rw len (ground (arith, v.head_in, v.tail_eq));
          };
          weighed = record {
            small = rw app (All-append IsSmall (contents z q) (i ∷ []) w.small (sm, tt));
            size_eq = rw app (omega (arith, w.size_eq, total-append (contents z q) (i ∷ [])));
          };
          appended = app;
          cnt = refl;
          len = len;
          closed = refl;
          init_cap = refl;
        },
      )

  -- Taking the head drops the oldest item.
  pub record IsTaken (q r : Queue T) (i : Item T) : Type 0 where
    pub ring : IsRing z r
    pub weighed : IsWeighed z r
    pub dropped : contents z q ≡ i ∷ contents z r
    pub cnt : r.cnt + 1 ≡ q.cnt
    pub len : length r.nodes ≡ length q.nodes
    pub closed : r.closed ≡ q.closed
    pub init_cap : r.init_cap ≡ q.init_cap

  pub take_head-IsTaken :
      (q : Queue T) (c : ℕ)
      → q.cnt ≡ suc c
      → IsRing z q
      → IsWeighed z q
      → (r : Queue T) × (i : Item T) × (take_head z q ≡ some (r, i)) × IsTaken q r i
  unfolding take_head total window
  take_head-IsTaken q c e v w =
      let z' = zero_item z in
      let ns = set q.nodes q.head z' in
      let i = get_or q.nodes q.head z' in
      let len : length ns ≡ length q.nodes = length-set q.nodes q.head z' in
      let next = wrap (q.head + 1) (length q.nodes) in
      let m : (q.head + 1) % length ns ≡ next =
        mod-wrap (q.head + 1) (length ns) (omega (arith, v.head_in)) ∙ rw len in
      let rest : window z' ns next c ≡ window z' q.nodes next c =
        window-set z' q.nodes next c (length q.nodes - 1) q.head z' (ground (arith, v.head_in))
          (omega (arith, v.cnt_le)) (omega (arith, v.head_in)) (ground (arith, v.head_in)) in
      let whole : contents z q ≡ i ∷ window z' q.nodes next c = ap (window z' q.nodes q.head) e in
      let small : All IsSmall (i ∷ window z' q.nodes next c) = subst (All IsSmall) whole w.small in
      let weight : q.size ≡ total (i ∷ window z' q.nodes next c) % uint64 =
        w.size_eq ∙ ap (λ l. total l % uint64) whole in
      let c' : q.cnt - 1 ≡ c = omega arith in
      (
        record q {
          nodes = ns;
          head = (q.head + 1) % length ns;
          cnt = q.cnt - 1;
          size = (q.size + uint64 - i.size) % uint64;
        },
        i,
        rw (get_elem?-get_or q.nodes q.head z' v.head_in, set?-set q.nodes q.head z' v.head_in),
        record {
          ring = record {
            head_in = rw m (ground (arith, v.head_in));
            cnt_le = omega (arith, v.cnt_le);
            tail_eq = rw (m, len) (ground (arith, v.head_in, v.tail_eq, v.cnt_le));
          };
          weighed = record {
            small = rw (m, c', rest) small.1;
            size_eq = rw (m, c', rest) (omega (arith, weight, small.0));
          };
          dropped = rw (m, c', rest) whole;
          cnt = omega arith;
          len = len;
          closed = refl;
          init_cap = refl;
        },
      )
