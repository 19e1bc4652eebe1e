-- ===== src/Utils/Queue/Refine.antt =====
-- utils/queue.go against its specification: every method, and every sequence of calls.
use anycable.Prelude.{
  uint64, ℕ, zero, suc, ◌%◌, ◌<◌, ◌≡◌, refl, ap, ◌∙◌, List, [], ◌∷◌, ◌++◌, none, some, arith, All,
  true, false, ◌&&◌, inl, inr, ltb, leb, if◌then◌else◌, Bool-cases, subst,
}
use anycable.Utils.Queue.{
  Queue, Item, push_ok, push_closed, push_overflow, zero_item, enqueue, clear_locked, new_queue,
  add, push, remove, close, clear, returns, blocks, wait,
}
use anycable.Utils.Queue.Ring.{window}
use anycable.Utils.Queue.Invariant.{total, IsSmall, contents, IsValid, empty-IsOpen}
use anycable.Utils.Queue.Spec.{
  View, Call, Reply, adds, pushes, removes, closes, clears, added, pushed, removed, done, spec,
  spec_run, view, call, run, IsSmallCall,
}
use anycable.Utils.Queue.Steps.{enqueue-IsOpen, remove-IsOpen}

module _ {T : Type 0} (z : T) where
  call_add :
      (q r : Queue T) (i : Item T)
      → q.closed ≡ false
      → enqueue z q i ≡ some r
      → call z q (adds i) ≡ some (r, added true)
  unfolding call add
  call_add q r i o e = ground arith

  call_push :
      (q r : Queue T) (i : Item T) (m : ℕ)
      → q.closed ≡ false
      → ltb 0 m && leb m q.size ≡ false
      → enqueue z q i ≡ some r
      → call z q (pushes i m) ≡ some (r, pushed push_ok)
  unfolding call push
  call_push q r i m o u e = ground arith

  spec_add :
      (v w : View T) (i : Item T)
      → v.closed ≡ false
      → w.closed ≡ v.closed
      → w.items ≡ v.items ++ i ∷ []
      → spec v (adds i) ≡ (w, added true)
  spec_add v w i o shut app = ground arith

  spec_push :
      (v w : View T) (i : Item T) (m size : ℕ)
      → v.closed ≡ false
      → size ≡ total v.items % uint64
      → ltb 0 m && leb m size ≡ false
      → w.closed ≡ v.closed
      → w.items ≡ v.items ++ i ∷ []
      → spec v (pushes i m) ≡ (w, pushed push_ok)
  spec_push v w i m size o e u shut app =
      let u' : ltb 0 m && leb m (total v.items % uint64) ≡ false =
        subst (λ s. ltb 0 m && leb m s ≡ false) e u in
      ground arith

  spec_remove :
      (v w : View T) (i : Item T)
      → w.closed ≡ v.closed
      → v.items ≡ i ∷ w.items
      → spec v removes ≡ (w, removed (some i))
  spec_remove v w i shut front = ground arith

  -- What one call owes to the specification.
  abbrev pub Simulates : Queue T → Call T → Type 0
  Simulates q c =
      (r : Queue T) × (y : Reply T) × (call z q c ≡ some (r, y))
      × IsValid z r
      × (spec (view z q) c ≡ (view z r, y))

  empty_view : (q : Queue T) → q.cnt ≡ 0 → contents z q ≡ []
  unfolding window
  empty_view q e = ap (window (zero_item z) q.nodes q.head) e

  add-Simulates : (q : Queue T) (i : Item T) → IsSmall i → IsValid z q → Simulates q (adds i)
  unfolding call add
  add-Simulates q i sm (inl (o, v)) =
      let (r, e, w, app, shut) = enqueue-IsOpen z q i v sm in
      (
        r,
        added true,
        call_add q r i o e,
        inl (shut ∙ o, w),
        spec_add (view z q) (view z r) i o shut app,
      )
  add-Simulates q i sm (inr (o, v)) = (q, added false, rw o, inr (o, v), rw o)

  push-Simulates :
      (q : Queue T) (i : Item T) (max_size : ℕ)
      → IsSmall i
      → IsValid z q
      → Simulates q (pushes i max_size)
  unfolding call push
  push-Simulates q i max_size sm (inr (o, v)) = (q, pushed push_closed, rw o, inr (o, v), rw o)
  push-Simulates q i max_size sm (inl (o, v)) =
      elim (Bool-cases (ltb 0 max_size && leb max_size q.size)) [
        | inl over ↦
            let (w, none_left) = empty-IsOpen z q v.cap_pos in
            (
              clear_locked z q,
              pushed push_overflow,
              rw (o, over),
              inl (unfold clear_locked in refl, w),
              rw (none_left, o, ← v.weighed.size_eq, over) (unfold clear_locked in refl),
            )
        | inr under ↦
            let (r, e, w, app, shut) = enqueue-IsOpen z q i v sm in
            (
              r,
              pushed push_ok,
              call_push q r i max_size o under e,
              inl (shut ∙ o, w),
              spec_push (view z q) (view z r) i max_size q.size o v.weighed.size_eq under shut app,
            )
      ]

  remove-Simulates : (q : Queue T) (c : ℕ) → q.cnt ≡ c → IsValid z q → Simulates q removes
  unfolding call
  remove-Simulates q zero e v = (q, removed none, unfold remove in rw e, v, rw (empty_view q e))
  remove-Simulates q (suc c) e (inr (o, v)) = absurd (omega (arith, v.nothing))
  remove-Simulates q (suc c) e (inl (o, v)) =
      let (r, i, e', w, front, shut) = remove-IsOpen z q c e v in
      (
        r,
        removed (some i),
        rw e',
        inl (shut ∙ o, w),
        spec_remove (view z q) (view z r) i shut front,
      )

  cap_pos : (q : Queue T) → IsValid z q → 0 < q.init_cap
  cap_pos q (inl (o, v)) = v.cap_pos
  cap_pos q (inr (o, v)) = v.cap_pos

  -- Each method keeps the queue well formed, never panics, and does to the items exactly what the
  -- specification does, with the same reply.
  pub call-Simulates : (q : Queue T) (c : Call T) → IsSmallCall c → IsValid z q → Simulates q c
  unfolding call
  call-Simulates q (adds i) sm v = add-Simulates q i sm v
  call-Simulates q (pushes i m) sm v = push-Simulates q i m sm v
  call-Simulates q removes sm v = remove-Simulates q q.cnt refl v
  call-Simulates q closes sm v = (
    close z q,
    done,
    refl,
    unfold close in inr (refl, record { cap_pos = cap_pos q v; nothing = refl; weightless = refl }),
    unfold close window in refl,
  )
  call-Simulates q clears sm v =
      let (w, none_left) = empty-IsOpen z q (cap_pos q v) in
      (
        clear_locked z q,
        done,
        unfold clear in refl,
        inl (unfold clear_locked in refl, w),
        rw none_left (unfold clear_locked in refl),
      )

  -- A well formed ring-buffer queue runs any sequence of calls whose sizes are below 2^64 to its
  -- end without a panic, replies as a plain list of items does, and holds the items that the list
  -- ends with.
  pub run-spec_run :
      (q : Queue T) (cs : List (Call T))
      → All IsSmallCall cs
      → IsValid z q
      → (r : Queue T) × (run z q cs ≡ some (r, (spec_run (view z q) cs).1))
        × IsValid z r
        × ((spec_run (view z q) cs).0 ≡ view z r)
  unfolding run
  run-spec_run q [] sm v = (q, refl, v, refl)
  run-spec_run q (c ∷ cs) sm v =
      let (r, y, e, w, sim) = call-Simulates q c sm.0 v in
      let (s, e', u, f) = run-spec_run r cs sm.1 w in (s, rw (e, sim, e'), u, rw sim f)

  pub new_queue-IsValid :
      (n : ℕ) → 0 < n → IsValid z (new_queue z n) × (contents z (new_queue z n) ≡ [])
  unfolding new_queue
  new_queue-IsValid n p =
      let q = new_queue z n in
      let (w, none_left) = empty-IsOpen z q p in
      (inl (refl, unfold clear_locked in w), unfold clear_locked in none_left)

  wait_by_count :
      (q : Queue T) (c : ℕ)
      → q.cnt ≡ c
      → wait z q ≡ (
          if q.closed
          then returns false
          else (elim (contents z q) [ [] ↦ blocks | i ∷ rest ↦ returns true ]))
  unfolding wait window
  wait_by_count q zero e = ground (arith, empty_view q e)
  wait_by_count q (suc c) e =
      let whole = ap (window (zero_item z) q.nodes q.head) e in ground (arith, whole)

  -- On a well formed queue Wait blocks exactly on an open queue with no items, and else tells
  -- whether it is open.
  pub wait-view :
      (q : Queue T)
      → IsValid z q
      → wait z q ≡ (
          if q.closed
          then returns false
          else (elim (contents z q) [ [] ↦ blocks | i ∷ rest ↦ returns true ]))
  wait-view q v = wait_by_count q q.cnt refl
