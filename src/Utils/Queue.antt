-- ===== src/Utils/Queue.antt =====
-- utils/queue.go: the growing and shrinking ring buffer of a session's pending frames.
-- `none` is a Go panic (an index out of range, or a remainder by zero). The lock makes each
-- method one step; `wait` on an empty open queue blocks, which is the result `blocks`.

pub mod Ring
pub mod Resize
pub mod Invariant
pub mod Slots
pub mod Spec
pub mod Steps
pub mod Refine
use anycable.Prelude.{
  uint64, ℕ, zero, suc, ◌+◌, ◌-◌, ◌*◌, ◌/◌, ◌%◌, ◌^◌, Bool, true, false, ◌&&◌, Option, none, some,
  List, [], ◌∷◌, length, get_elem?, take, drop, replicate, ltb, leb, nat_beq, if◌then◌else◌,
}

pub record Item (T : Type 0) : Type 0 where
  pub size : ℕ
  pub item_data : T

pub record Queue (T : Type 0) : Type 0 where
  pub nodes : List (Item T)
  pub head : ℕ
  pub tail : ℕ
  pub cnt : ℕ
  pub size : ℕ
  pub closed : Bool
  pub init_cap : ℕ

pub data PushResult : Type 0 where
  push_ok push_closed push_overflow : PushResult

pub data WaitResult : Type 0 where
  returns : Bool → WaitResult
  blocks : WaitResult

infixl 5 ◌>>=◌
abbrev pub ◌>>=◌ : {A B : Type 0} → Option A → (A → Option B) → Option B
none >>= f = none
some a >>= f = f a

module _ {A : Type 0} where
  -- `xs[i] = v`, which panics out of range.
  unfoldable pub set? : List A → ℕ → A → Option (List A)
  set? [] i v = none
  set? (x ∷ xs) zero v = some (v ∷ xs)
  set? (x ∷ xs) (suc i) v = do xs' ← set? xs i v; some (x ∷ xs')

  -- `copy(dst, src)`: as many elements as both have.
  unfoldable pub copy : List A → List A → List A
  copy [] src = []
  copy (d ∷ dst) [] = d ∷ dst
  copy (d ∷ dst) (s ∷ src) = s ∷ copy dst src

  -- `copy(dst[k:], src)`: the slice panics when `k` is beyond the length.
  unfoldable pub copy_at : ℕ → List A → List A → Option (List A)
  unfolding copy
  copy_at zero dst src = some (copy dst src)
  copy_at (suc k) [] src = none
  copy_at (suc k) (d ∷ dst) src = do dst' ← copy_at k dst src; some (d ∷ dst')

module _ {T : Type 0} (zero_data : T) where
  -- `Item[T]{}`
  abbrev pub zero_item : Item T
  zero_item = record { size = 0; item_data = zero_data }

  unfoldable pub new_queue : ℕ → Queue T
  new_queue initial_capacity = record {
    nodes = replicate initial_capacity zero_item;
    head = 0;
    tail = 0;
    cnt = 0;
    size = 0;
    closed = false;
    init_cap = initial_capacity;
  }

  -- The elements moved to the front of a slice of length `n`.
  unfoldable pub relocate : Queue T → ℕ → Option (List (Item T))
  unfolding copy copy_at
  relocate q n =
      let fresh = replicate n zero_item in
      if ltb q.head q.tail
      then some (copy fresh (take (q.tail - q.head) (drop q.head q.nodes)))
      else copy_at (length q.nodes - q.head) (copy fresh (drop q.head q.nodes))
          (take q.tail q.nodes)

  unfoldable pub resize : Queue T → ℕ → Option (Queue T)
  resize q n = do
    nodes ← relocate q n
    if nat_beq n 0 then none else some (record q { nodes = nodes; head = 0; tail = q.cnt % n })

  unfoldable pub clear_locked : Queue T → Queue T
  clear_locked q = record q {
    closed = false;
    cnt = 0;
    nodes = replicate q.init_cap zero_item;
    size = 0;
    head = 0;
    tail = 0;
  }

  -- The lines that `Add` and `Push` share.
  unfoldable pub grow : Queue T → Option (Queue T)
  grow q = if nat_beq q.cnt (length q.nodes) then resize q (q.cnt * 2) else some q

  unfoldable pub put_tail : Queue T → Item T → Option (Queue T)
  unfolding set?
  put_tail q i = do
    nodes ← set? q.nodes q.tail i
    some (record q {
      nodes = nodes;
      tail = (q.tail + 1) % length nodes;
      size = (q.size + i.size) % uint64;
      cnt = q.cnt + 1;
    })

  unfoldable pub enqueue : Queue T → Item T → Option (Queue T)
  enqueue q i = do q' ← grow q; put_tail q' i

  unfoldable pub add : Queue T → Item T → Option (Queue T × Bool)
  add q i = if q.closed then some (q, false) else (do q' ← enqueue q i; some (q', true))

  unfoldable pub push : Queue T → Item T → ℕ → Option (Queue T × PushResult)
  push q i max_size =
      if q.closed
      then some (q, push_closed)
      else if ltb 0 max_size && leb max_size q.size
      then some (clear_locked q, push_overflow)
      else (do q' ← enqueue q i; some (q', push_ok))

  unfoldable pub close : Queue T → Queue T
  close q = record q { closed = true; cnt = 0; nodes = []; size = 0 }

  unfoldable pub clear : Queue T → Queue T
  clear q = clear_locked q

  unfoldable pub wait : Queue T → WaitResult
  wait q = if q.closed then returns false else if nat_beq q.cnt 0 then blocks else returns true

  unfoldable pub take_head : Queue T → Option (Queue T × Item T)
  unfolding set?
  take_head q = do
    i ← get_elem? q.nodes q.head
    nodes ← set? q.nodes q.head zero_item
    some (
      record q {
        nodes = nodes;
        head = (q.head + 1) % length nodes;
        cnt = q.cnt - 1;
        size = (q.size + uint64 - i.size) % uint64;
      },
      i,
    )

  unfoldable pub shrink : Queue T → Option (Queue T)
  shrink q =
      let n = length q.nodes / 2 in if leb q.init_cap n && leb q.cnt n then resize q n else some q

  unfoldable pub remove : Queue T → Option (Queue T × Option (Item T))
  remove q =
      if nat_beq q.cnt 0
      then some (q, none)
      else (do (q', i) ← take_head q; q'' ← shrink q'; some (q'', some i))
