-- ===== src/Utils/Queue/Spec.antt =====
-- utils/queue.go: the queue that its callers think of, a list with a flag, and method calls on
-- both.
use anycable.Prelude.{
  uint64, ℕ, ◌%◌, List, [], ◌∷◌, ◌++◌, Option, none, some, Bool, true, false, ◌&&◌, ltb, leb,
  if◌then◌else◌,
}
use anycable.Utils.Queue.{
  Queue, Item, PushResult, push_ok, push_closed, push_overflow, ◌>>=◌, add, push, remove, close,
  clear,
}
use anycable.Utils.Queue.Invariant.{total, IsSmall, contents}

-- The specification: the items, oldest first, and whether the queue was closed.
pub record View (T : Type 0) : Type 0 where
  pub items : List (Item T)
  pub closed : Bool

pub data Call (T : Type 0) : Type 0 where
  adds : Item T → Call T
  pushes : Item T → ℕ → Call T
  removes closes clears : Call T

pub data Reply (T : Type 0) : Type 0 where
  added : Bool → Reply T
  pushed : PushResult → Reply T
  removed : Option (Item T) → Reply T
  done : Reply T

module _ {T : Type 0} where
  abbrev append_item : View T → Item T → View T
  append_item v i = record v { items = v.items ++ i ∷ [] }

  abbrev pop_front : List (Item T) → Bool → View T × Reply T
  pop_front [] c = (record { items = []; closed = c }, removed none)
  pop_front (i ∷ rest) c = (record { items = rest; closed = c }, removed (some i))

  abbrev pub spec : View T → Call T → View T × Reply T
  spec v (adds i) = if v.closed then (v, added false) else (append_item v i, added true)
  spec v (pushes i max_size) =
      if v.closed
      then (v, pushed push_closed)
      else if ltb 0 max_size && leb max_size (total v.items % uint64)
      then (record v { items = [] }, pushed push_overflow)
      else (append_item v i, pushed push_ok)
  spec v removes = pop_front v.items v.closed
  spec v closes = (record { items = []; closed = true }, done)
  spec v clears = (record { items = []; closed = false }, done)

  abbrev pub IsSmallCall : Call T → Type 0
  IsSmallCall (adds i) = IsSmall i
  IsSmallCall (pushes i max_size) = IsSmall i
  IsSmallCall _ = Unit {0}

  abbrev pub spec_run : View T → List (Call T) → View T × List (Reply T)
  spec_run v [] = (v, [])
  spec_run v (c ∷ cs) = let s = spec v c in let rest = spec_run s.0 cs in (rest.0, s.1 ∷ rest.1)

module _ {T : Type 0} (z : T) where
  abbrev pub view : Queue T → View T
  view q = record { items = contents z q; closed = q.closed }

  -- One method call on the code's queue.
  unfoldable pub call : Queue T → Call T → Option (Queue T × Reply T)
  call q (adds i) = do (r, b) ← add z q i; some (r, added b)
  call q (pushes i max_size) = do (r, p) ← push z q i max_size; some (r, pushed p)
  call q removes = do (r, o) ← remove z q; some (r, removed o)
  call q closes = some (close z q, done)
  call q clears = some (clear z q, done)

  unfoldable pub run : Queue T → List (Call T) → Option (Queue T × List (Reply T))
  unfolding call
  run q [] = some (q, [])
  run q (c ∷ cs) = do (r, y) ← call q c; (s, ys) ← run r cs; some (s, y ∷ ys)
