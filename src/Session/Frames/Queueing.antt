-- ===== src/Session/Frames/Queueing.antt =====
-- node/session.go, `sendFrame` on the queue of utils/queue.go: what the queue answers, and what
-- it holds then.
use anycable.Prelude.{
  uint64, ℕ, ◌%◌, ◌≡◌, ◌∙◌, Bool, ◌&&◌, some, List, [], ◌∷◌, ◌++◌, arith, refl, ap, length, ltb,
  leb, if◌then◌else◌, Option-cases, inl, inr,
}
use anycable.Utils.Queue
use anycable.Utils.Queue.{Queue, Item, PushResult, push_ok, push_closed, push_overflow}
use anycable.Utils.Queue.Invariant.{IsSmall, IsValid, contents, total}
use anycable.Utils.Queue.Spec.{View, Reply, pushes, pushed, spec, view, call}
use anycable.Utils.Queue.Refine.{call-Simulates}
use anycable.Session.State.{SentFrame, no_frame, Session}

abbrev pub item_of : SentFrame → Item SentFrame
item_of f = record { size = length f.payload; item_data = f }

-- The frames that wait to be written, as queue items.
abbrev pub pending : Session → List (Item SentFrame)
pending s = contents no_frame s.write_queue

push-call :
    (q r : Queue SentFrame) (i : Item SentFrame) (m : ℕ) (y : Reply SentFrame)
    → call no_frame q (pushes i m) ≡ some (r, y)
    → (answer : PushResult) × (Queue.push no_frame q i m ≡ some (r, answer)) × (y ≡ pushed answer)
unfolding call
push-call q r i m y e = elim (Option-cases (Queue.push no_frame q i m)) [
  | (inl f) ↦ absurd (ground (arith, f))
  | (inr ((r', answer), f)) ↦ (answer, ground (arith, f), ground (arith, f))
]

-- The queue `q` has no room below the limit `m`.
abbrev pub is_over : Queue SentFrame → ℕ → Bool
is_over q m = ltb 0 m && leb m (total (contents no_frame q) % uint64)

-- The queue answers, is well formed, and holds what its specification says.
pub record Answered (q : Queue SentFrame) (i : Item SentFrame) (m : ℕ) : Type 0 where
  pub after : Queue SentFrame
  pub answer : PushResult
  pub returned : Queue.push no_frame q i m ≡ some (after, answer)
  pub valid : IsValid no_frame after
  pub reply :
      answer ≡ (if q.closed then push_closed else if is_over q m then push_overflow else push_ok)
  pub shut : after.closed ≡ q.closed
  pub items : contents no_frame after ≡ (
      if q.closed
      then contents no_frame q
      else if is_over q m
      then []
      else contents no_frame q ++ i ∷ [])

-- The specification's answer, in parts.
spec_parts :
    (v : View SentFrame) (i : Item SentFrame) (m : ℕ) (w : View SentFrame) (answer : PushResult)
    → spec v (pushes i m) ≡ (w, pushed answer)
    → (over : Bool) → (ltb 0 m && leb m (total v.items % uint64)) ≡ over
    → (answer ≡ (if v.closed then push_closed else if over then push_overflow else push_ok))
      × (w.closed ≡ v.closed)
      × (w.items ≡ (if v.closed then v.items else if over then [] else v.items ++ i ∷ []))
spec_parts v i m w answer e over o = (ground (arith, o), ground (arith, o), ground (arith, o))

pub push-Answered :
    (q : Queue SentFrame) (i : Item SentFrame) (m : ℕ)
    → IsSmall i
    → IsValid no_frame q
    → Answered q i m
push-Answered q i m small v =
    let (r, y, e, w, sim) = call-Simulates no_frame q (pushes i m) small v in
    let (answer, returned, same) = push-call q r i m y e in
    let (reply, shut, items) =
      spec_parts (view no_frame q) i m (view no_frame r) answer
        (sim ∙ ap (λ z. (view no_frame r, z)) same) (is_over q m) refl in
    record {
      after = r;
      answer = answer;
      returned = returned;
      valid = w;
      reply = reply;
      shut = shut;
      items = items;
    }
