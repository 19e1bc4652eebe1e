-- ===== src/Utils/Queue/Steps.antt =====
-- utils/queue.go: what enqueueing, shrinking and removing do to a well-formed open queue.
use anycable.Prelude.{
  uint64, ℕ, suc, ◌+◌, ◌*◌, ◌/◌, ◌%◌, ◌≤◌, ◌<◌, ◌≡◌, refl, ap, ◌∙◌, sym, [], ◌∷◌, ◌++◌, some,
  length, arith, false, ◌&&◌, inl, inr, nat_beq, leb, Bool-cases,
}
use anycable.Utils.Queue.{Queue, Item, enqueue, shrink, grow, remove}
use anycable.Utils.Queue.Invariant.{
  total, IsSmall, contents, IsRing, IsWeighed, IsOpen, resize-IsResized,
}
use anycable.Utils.Queue.Slots.{put_tail-IsPut, take_head-IsTaken}

module _ {T : Type 0} (z : T) where
  -- `enqueue` appends, whether or not the slice has to grow.
  pub enqueue-IsOpen :
      (q : Queue T) (i : Item T)
      → IsOpen z q
      → IsSmall i
      → (r : Queue T) × (enqueue z q i ≡ some r)
        × IsOpen z r
        × (contents z r ≡ contents z q ++ i ∷ [])
        × (r.closed ≡ q.closed)
  unfolding enqueue grow
  enqueue-IsOpen q i v sm = elim (Bool-cases (nat_beq q.cnt (length q.nodes))) [
    | inl full ↦
        let h = v.ring.head_in in
        let (r, e, g) = resize-IsResized z q (q.cnt * 2) v.ring (ground arith) (omega arith) in
        let wr : IsWeighed z r = record {
          small = rw g.same v.weighed.small;
          size_eq = g.size ∙ (v.weighed.size_eq ∙ ap (λ l. total l % uint64) (sym g.same));
        } in
        let (s, e', p) = put_tail-IsPut z r i g.ring (ground (arith, g.cnt, g.len)) sm wr in
        (
          s,
          rw (full, e, e'),
          record {
            cap_pos = omega (arith, v.cap_pos, p.init_cap, g.init_cap);
            ring = p.ring;
            weighed = p.weighed;
            dense = λ d. omega (arith, p.len, g.len, p.cnt, g.cnt);
          },
          p.appended ∙ ap (λ l. l ++ i ∷ []) g.same,
          p.closed ∙ g.closed,
        )
    | inr room ↦
        let fits : q.cnt < length q.nodes = ground (arith, v.ring.cnt_le) in
        let (s, e, p) = put_tail-IsPut z q i v.ring fits sm v.weighed in
        (
          s,
          rw (room, e),
          record {
            cap_pos = omega (arith, v.cap_pos, p.init_cap);
            ring = p.ring;
            weighed = p.weighed;
            dense = λ d. ground (arith, v.dense, p.len, p.cnt, p.init_cap);
          },
          p.appended,
          p.closed,
        )
  ]

  -- `shrink` keeps every item: it runs only when exactly half of the slice is in use.
  shrink-IsOpen :
      (q : Queue T)
      → 0 < q.init_cap
      → IsRing z q
      → IsWeighed z q
      → (q.init_cap ≤ length q.nodes / 2 → length q.nodes / 2 < q.cnt + 1)
      → (r : Queue T) × (shrink z q ≡ some r)
        × IsOpen z r
        × (contents z r ≡ contents z q)
        × (r.closed ≡ q.closed)
  unfolding shrink
  shrink-IsOpen q p v w dense =
      let n = length q.nodes / 2 in
      elim (Bool-cases (leb q.init_cap n && leb q.cnt n)) [
        | inl small ↦
            let low : q.init_cap ≤ n = ground arith in
            let half : q.cnt ≡ n = ground (arith, dense low) in
            let (r, e, g) = resize-IsResized z q n v (omega arith) (omega arith) in
            (
              r,
              rw (small, e),
              record {
                cap_pos = omega (arith, g.init_cap);
                ring = g.ring;
                weighed = record {
                  small = rw g.same w.small;
                  size_eq = g.size ∙ (w.size_eq ∙ ap (λ l. total l % uint64) (sym g.same));
                };
                dense = λ d. omega (arith, g.len, g.cnt, g.init_cap);
              },
              g.same,
              g.closed,
            )
        | inr large ↦ (
          q,
          rw large,
          record { cap_pos = p; ring = v; weighed = w; dense = λ d. ground (arith, dense d) },
          refl,
          refl,
        )
      ]

  pub remove-IsOpen :
      (q : Queue T) (c : ℕ)
      → q.cnt ≡ suc c
      → IsOpen z q
      → (r : Queue T) × (i : Item T) × (remove z q ≡ some (r, some i))
        × IsOpen z r
        × (contents z q ≡ i ∷ contents z r)
        × (r.closed ≡ q.closed)
  unfolding remove
  remove-IsOpen q c e v =
      let (r, i, e', t) = take_head-IsTaken z q c e v.ring v.weighed in
      let (s, e'', w, same, shut) =
        shrink-IsOpen r (omega (arith, v.cap_pos, t.init_cap)) t.ring t.weighed
          (λ d. ground (arith, v.dense, t.len, t.cnt, t.init_cap)) in
      let busy : nat_beq q.cnt 0 ≡ false = ground arith in
      (s, i, rw (busy, e', e''), w, t.dropped ∙ ap (◌∷◌ i) (sym same), shut ∙ t.closed)
