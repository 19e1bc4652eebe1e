-- ===== src/Broker/Memstream/Expiry.antt =====
-- broker/memory.go, `expire` and `filterByTime`: what goes and what stays as time passes, and where
-- offsets given by `insert` leave the index arithmetic of `filterByOffset` behind.
use anycable.Prelude.{
  none, uint64, ℕ, ◌+◌, ◌-◌, ◌%◌, ◌≤◌, ◌<◌, ◌≡◌, ◌≢◌, refl, ap, sym, false, List, [], ◌∷◌, drop,
  ltb, nat_beq, if◌then◌else◌, String, arith, Bool-cases, inl, inr,
}
use anycable.Broker.Outcome.{ok, panic}
use anycable.Broker.Memstream.{
  Entry, Memstream, cut_index, expire, filter_by_offset, last_offset, add, insert, append_entry,
  trim, first_offset,
}

-- Entries no older than `ttl` seconds, by looking at each.
pub unexpired : ℕ → ℕ → List Entry → List Entry
unexpired now ttl [] = []
unexpired now ttl (e ∷ es) =
    let rest = unexpired now ttl es in if ltb (e.timestamp + ttl) now then rest else e ∷ rest

-- The clock did not go back between two entries.
abbrev pub IsChronological : ℕ → List Entry → Type 0
IsChronological t [] = Unit {0}
IsChronological t (e ∷ es) = (t ≤ e.timestamp) × IsChronological e.timestamp es

unexpired_all :
    (now ttl t : ℕ) (xs : List Entry)
    → now ≤ t + ttl
    → IsChronological t xs
    → unexpired now ttl xs ≡ xs
unfolding unexpired
unexpired_all now ttl t [] h c = refl
unexpired_all now ttl t (x ∷ xs) h c =
    ground (arith, unexpired_all now ttl x.timestamp xs (omega arith) c.1)

drop-unexpired :
    (now ttl t : ℕ) (xs : List Entry)
    → IsChronological t xs
    → drop (cut_index now ttl xs) xs ≡ unexpired now ttl xs
unfolding cut_index unexpired
drop-unexpired now ttl t [] c = refl
drop-unexpired now ttl t (x ∷ xs) c = elim (Bool-cases (ltb (x.timestamp + ttl) now)) [
  | inl old ↦ rw old (drop-unexpired now ttl x.timestamp xs c.1)
  | inr new ↦ rw new (ap (◌∷◌ x) (sym (unexpired_all now ttl x.timestamp xs (ground arith) c.1)))
]

-- On a log whose clock never went back, expire removes exactly the entries older than the ttl, and
-- the last offset and the deadline stay.
pub expire-unexpired :
    (now t : ℕ) (ms : Memstream)
    → IsChronological t ms.entries
    → ((expire now ms).entries ≡ unexpired now ms.ttl ms.entries)
      × ((expire now ms).offset ≡ ms.offset)
      × ((expire now ms).deadline ≡ ms.deadline)
unfolding expire
expire-unexpired now t ms c = (drop-unexpired now ms.ttl t ms.entries c, refl, refl)

drop-drop :
    (now later ttl : ℕ) (xs : List Entry)
    → now ≤ later
    → (let rest = drop (cut_index now ttl xs) xs in drop (cut_index later ttl rest) rest)
      ≡ drop (cut_index later ttl xs) xs
unfolding cut_index
drop-drop now later ttl [] h = refl
drop-drop now later ttl (x ∷ xs) h = ground (arith, drop-drop now later ttl xs h)

-- A run of expire that a later run follows changes nothing about what the later run leaves.
pub expire-expire :
    (now later : ℕ) (ms : Memstream)
    → now ≤ later
    → (expire later (expire now ms)).entries ≡ (expire later ms).entries
unfolding expire
expire-expire now later ms h = drop-drop now later ms.ttl ms.entries h

-- After a gap in the inserted offsets an entry past the requested offset is not served: the answer
-- is an error or an empty history.
pub gap-not-served :
    (o : ℕ) (ms : Memstream) (a b : Entry)
    → ms.entries ≡ a ∷ b ∷ []
    → ms.low ≡ a.offset
    → 0 < a.offset
    → a.offset < o
    → o < b.offset
    → b.offset < uint64
    → filter_by_offset o ms ≢ ok (b ∷ [])
unfolding filter_by_offset last_offset
gap-not-served o ms a b e low pos h1 h2 h3 served =
    let some_low : nat_beq ms.low 0 ≡ false = ground arith in
    let start : (o + uint64 - ms.low + 1) % uint64 ≡ o + 1 - ms.low = omega arith in
    ground (arith, start, some_low)

-- With a history limit of zero the first publication to a stream panics, whichever of the two ways
-- it comes.
pub limit_zero_panics :
    (now o : ℕ) (payload : String) (ms : Memstream)
    → ms.limit ≡ 0
    → ms.entries ≡ []
    → ms.offset < o
    → (add now payload ms ≡ panic) × (insert now payload o none ms ≡ panic)
unfolding add insert append_entry trim first_offset
limit_zero_panics now o payload ms l e h = ground arith
