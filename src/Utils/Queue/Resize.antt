-- ===== src/Utils/Queue/Resize.antt =====
-- utils/queue.go, `resize`: the live items keep their order at the front of the new slice.
use anycable.Prelude.{
  ℕ, zero, suc, ◌+◌, ◌-◌, ◌≤◌, ◌<◌, ◌≡◌, refl, ap, ◌∙◌, sym, List, [], ◌∷◌, ◌++◌, Option, some,
  length, take, drop, replicate, ltb, arith, length-append, length-drop, length-replicate,
  append_assoc, Bool-cases, inl, inr,
}
use anycable.Utils.Queue.{Queue, Item, copy, copy_at, relocate, zero_item}
use anycable.Utils.Queue.Ring.{wrap, window, window_flat, window-append, length-window}

module _ {A : Type 0} where
  take-append : (xs ys : List A) → take (length xs) (xs ++ ys) ≡ xs
  take-append [] ys = refl
  take-append (x ∷ xs) ys = ap (◌∷◌ x) (take-append xs ys)

  take_all : (xs : List A) (n : ℕ) → length xs ≤ n → take n xs ≡ xs
  take_all [] zero h = refl
  take_all [] (suc n) h = refl
  take_all (x ∷ xs) zero h = absurd (omega arith)
  take_all (x ∷ xs) (suc n) h = ap (◌∷◌ x) (take_all xs n (omega arith))

  -- A source that fits becomes a prefix.
  copy_fits :
      (dst src : List A) → length src ≤ length dst → copy dst src ≡ src ++ drop (length src) dst
  unfolding copy
  copy_fits [] [] h = refl
  copy_fits [] (s ∷ src) h = absurd (omega arith)
  copy_fits (d ∷ dst) [] h = refl
  copy_fits (d ∷ dst) (s ∷ src) h = ap (◌∷◌ s) (copy_fits dst src (omega arith))

  copy_at-append :
      (xs rest src : List A) → copy_at (length xs) (xs ++ rest) src ≡ some (xs ++ copy rest src)
  unfolding copy_at
  copy_at-append [] rest src = refl
  copy_at-append (x ∷ xs) rest src = rw (copy_at-append xs rest src)

  -- Two sources written one after the other.
  copy_twice :
      (dst xs ys : List A) (k : ℕ)
      → k ≡ length xs
      → length xs + length ys ≤ length dst
      → copy_at k (copy dst xs) ys ≡ some (xs ++ (ys ++ drop (length ys) (drop (length xs) dst)))
  copy_twice dst xs ys k e h =
      rw (e, copy_fits dst xs (omega arith), copy_at-append xs (drop (length xs) dst) ys)
        (rw (copy_fits (drop (length xs) dst) ys (omega (arith, length-drop (length xs) dst))))

module _ {T : Type 0} (z : T) where
  -- What a relocated slice holds.
  abbrev pub Relocated : Queue T → ℕ → Option (List (Item T)) → Type 0
  Relocated q n r =
      (ns : List (Item T)) × (r ≡ some ns)
      × (length ns ≡ n)
      × (window (zero_item z) ns 0 q.cnt ≡ window (zero_item z) q.nodes q.head q.cnt)

  front :
      (q : Queue T) (n : ℕ) (xs rest : List (Item T))
      → length xs ≡ q.cnt
      → length xs + length rest ≡ n
      → xs ≡ window (zero_item z) q.nodes q.head q.cnt
      → Relocated q n (some (xs ++ rest))
  front q n xs rest e h w =
      let size : length (xs ++ rest) ≡ n = omega (arith, length-append xs rest) in
      (
        xs ++ rest,
        refl,
        size,
        window_flat (zero_item z) (xs ++ rest) 0 q.cnt (omega arith)
            ∙ (ap (λ c. take c (xs ++ rest)) (sym e) ∙ (take-append xs rest ∙ w)),
      )

  -- A window that runs past the end is the two slices that `resize` copies.
  wrapped :
      (ns : List (Item T)) (h t : ℕ)
      → h < length ns
      → t ≤ h
      → window (zero_item z) ns h (length ns - h + t) ≡ drop h ns ++ take t ns
  wrapped ns h t p q =
      let back : wrap (h + (length ns - h)) (length ns) ≡ 0 = ground arith in
      let first : window (zero_item z) ns h (length ns - h) ≡ drop h ns =
        window_flat (zero_item z) ns h (length ns - h) (omega arith)
        ∙ take_all (drop h ns) (length ns - h) (omega (arith, length-drop h ns)) in
      window-append (zero_item z) ns h (length ns - h) t p (omega arith)
      ∙ (rw (back, first) (ap (◌++◌ (drop h ns)) (window_flat (zero_item z) ns 0 t (omega arith))))

  pub relocate-Relocated :
      (q : Queue T) (n : ℕ)
      → q.head < length q.nodes
      → 0 < q.cnt
      → q.cnt ≤ length q.nodes
      → q.tail ≡ wrap (q.head + q.cnt) (length q.nodes)
      → q.cnt ≤ n
      → Relocated q n (relocate z q n)
  unfolding relocate
  relocate-Relocated q n hd pos le tl fit = elim (Bool-cases (ltb q.head q.tail)) [
    | inl up ↦
        let c : q.tail - q.head ≡ q.cnt = ground arith in
        let src = take (q.tail - q.head) (drop q.head q.nodes) in
        let w : window (zero_item z) q.nodes q.head q.cnt ≡ src =
          window_flat (zero_item z) q.nodes q.head q.cnt (ground arith)
          ∙ ap (λ k. take k (drop q.head q.nodes)) (sym c) in
        let len : length src ≡ q.cnt =
          ap length (sym w) ∙ length-window (zero_item z) q.nodes q.head q.cnt in
        let room : length (replicate n (zero_item z)) ≡ n = length-replicate n (zero_item z) in
        rw (up, copy_fits (replicate n (zero_item z)) src (omega arith))
          (front q n src (drop (length src) (replicate n (zero_item z))) len
            (omega (arith, length-drop (length src) (replicate n (zero_item z)))) (sym w))
    | inr down ↦
        let xs = drop q.head q.nodes in
        let ys = take q.tail q.nodes in
        let fresh = replicate n (zero_item z) in
        let c : length q.nodes - q.head + q.tail ≡ q.cnt = ground arith in
        let w : window (zero_item z) q.nodes q.head q.cnt ≡ xs ++ ys =
          ap (window (zero_item z) q.nodes q.head) (sym c)
          ∙ wrapped q.nodes q.head q.tail hd (ground arith) in
        let len : length (xs ++ ys) ≡ q.cnt =
          ap length (sym w) ∙ length-window (zero_item z) q.nodes q.head q.cnt in
        let room : length fresh ≡ n = length-replicate n (zero_item z) in
        let two : length xs + length ys ≡ q.cnt = omega (arith, length-append xs ys) in
        let rest = drop (length ys) (drop (length xs) fresh) in
        rw
          (
            down,
            copy_twice fresh xs ys (length q.nodes - q.head) (sym (length-drop q.head q.nodes))
                (omega arith),
            ← append_assoc xs ys rest,
          )
          (front q n (xs ++ ys) rest len
            (omega (
              arith,
              length-drop (length ys) (drop (length xs) fresh),
              length-drop (length xs) fresh,
            ))
            (sym w))
  ]
