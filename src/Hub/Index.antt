-- ===== src/Hub/Index.antt =====
-- hub/hub.go, `index`: the shard of a stream, by the 64-bit FNV-1a hash of Go's `hash/fnv` over
-- the stream's bytes.
use Prim.Native.Char.{code}
use Prim.Native.Nat.{bit_xor}
use native.Mathlib.Nat.{mod-lt}
use anycable.Prelude.{
  ℕ, ◌+◌, ◌*◌, ◌/◌, ◌%◌, ◌^◌, ◌<◌, ◌≡◌, refl, List, [], ◌∷◌, ◌++◌, String, ltb, nat_beq,
  if◌then◌else◌, arith, Bool-cases, inl, inr,
}

-- The UTF-8 bytes of a code point.
utf8 : ℕ → List ℕ
utf8 c =
    if ltb c 0x80
    then c ∷ []
    else if ltb c 0x800
    then (0xc0 + c / 64) ∷ (0x80 + c % 64) ∷ []
    else if ltb c 0x10000
    then (0xe0 + c / 4096) ∷ (0x80 + c / 64 % 64) ∷ (0x80 + c % 64) ∷ []
    else (0xf0 + c / 262144) ∷ (0x80 + c / 4096 % 64) ∷ (0x80 + c / 64 % 64) ∷ (0x80 + c % 64) ∷ []

pub bytes : String → List ℕ
unfolding utf8
bytes String.[] = []
bytes (String.◌∷◌ c s) = utf8 (code c) ++ bytes s

pub fnv64a : ℕ → List ℕ → ℕ
fnv64a hash [] = hash
fnv64a hash (b ∷ bs) = fnv64a (bit_xor hash b * 1099511628211 % 2 ^ 64) bs

pub index : String → ℕ → ℕ
unfolding bytes fnv64a
index stream size = if nat_beq size 1 then 0 else fnv64a 14695981039346656037 (bytes stream) % size

-- With at least one gate the index is one of a gate.
pub index-lt : (stream : String) (size : ℕ) → 0 < size → index stream size < size
unfolding index
index-lt stream size h = elim (Bool-cases (nat_beq size 1)) [
  | inl one ↦ rw one (ground arith)
  | inr more ↦ rw more (mod-lt (fnv64a 14695981039346656037 (bytes stream)) h)
]

-- The offset basis and one step of the published algorithm: the hash of "a".
fnv64a_of_a : fnv64a 14695981039346656037 (bytes "a") ≡ 0xaf63dc4c8601ec8c
unfolding fnv64a bytes
fnv64a_of_a = refl
