-- ===== src/Session/Writer/Delivery.antt =====
-- node/session.go, `SendMessages` against the plain list of frames that wait: what the connection gets.
use anycable.Prelude.{
  ℕ, ◌≡◌, ◌∙◌, Bool, true, false, some, List, [], ◌∷◌, ◌++◌, String, arith, refl, ap, sym, subst,
  append-nil, append_assoc, if◌then◌else◌, Bool-cases, inl, inr, Option-cases, List-cases,
}
use anycable.Utils.Queue
use anycable.Utils.Queue.{Queue, Item, returns, blocks}
use anycable.Utils.Queue.Invariant.{IsValid, contents}
use anycable.Utils.Queue.Spec.{removes, closes, call}
use anycable.Utils.Queue.Refine.{call-Simulates, wait-view}
use anycable.Session.State.{
  FrameType, text_frame, close_frame, binary_frame, unknown_frame, SentFrame, no_frame,
  close_normal_closure, close_abnormal_closure, Output, wrote, wrote_binary, closed_with, Session,
}
use anycable.Session.Frames.{
  WriteResult, write_ok, write_timed_out, write_failed, counter_add, write_frame, disconnect_now,
  disconnect_from_node, close,
}
use anycable.Session.Frames.Queueing.{pending}
use anycable.Session.Writer.{
  Status, running, waiting, stopped, after_write, handle_item, take_item, send_round, send_messages,
}

-- What disconnecting a session says to the connection.
abbrev pub hang_up : Bool → String → ℕ → List Output
hang_up connected reason code = if connected then closed_with code reason ∷ [] else []

-- What one frame comes to.
abbrev pub delivery : Bool → WriteResult → SentFrame → List Output × Status
delivery connected result f = elim f.frame_type [
  | text_frame ↦ elim result [
    | write_ok ↦ (wrote f.payload ∷ [], running)
    | write_timed_out ↦ (hang_up connected "Write Failed" close_abnormal_closure, stopped)
    | write_failed ↦ (hang_up connected "Write Failed" close_abnormal_closure, stopped)
  ]
  | binary_frame ↦ elim result [
    | write_ok ↦ (wrote_binary f.payload ∷ [], running)
    | write_timed_out ↦ (hang_up connected "Write Failed" close_abnormal_closure, stopped)
    | write_failed ↦ (hang_up connected "Write Failed" close_abnormal_closure, stopped)
  ]
  | close_frame ↦ (
    closed_with f.close_code f.close_reason
        ∷ hang_up connected "Close frame sent" close_normal_closure,
    stopped,
  )
  | unknown_frame ↦ (hang_up connected "Write Failed" close_abnormal_closure, stopped)
]

-- A delivery, with those that come after it if the routine goes on.
abbrev pub then_deliver : List Output × Status → List Output × Status → List Output × Status
then_deliver (out, running) rest = (out ++ rest.0, rest.1)
then_deliver (out, waiting) rest = (out, waiting)
then_deliver (out, stopped) rest = (out, stopped)

then_deliver_as :
    (d rest : List Output × Status) (status : Status)
    → status ≡ d.1
    → then_deliver d rest ≡ then_deliver (d.0, status) rest
then_deliver_as (out, status') rest status e = ap (λ x. then_deliver (out, x) rest) (sym e)

-- The frames delivered one after the other, until one ends it, none is left, or the results are.
abbrev pub deliveries : Bool → List WriteResult → List (Item SentFrame) → List Output × Status
deliveries connected [] items = ([], running)
deliveries connected (result ∷ results) [] = ([], waiting)
deliveries connected (result ∷ results) (item ∷ items) =
    then_deliver (delivery connected result item.item_data) (deliveries connected results items)

disconnect_now_output :
    (s : Session) (reason : String) (code : ℕ)
    → Session.output (disconnect_now s reason code) ≡ s.output ++ hang_up s.connected reason code
unfolding disconnect_now write_frame disconnect_from_node close
disconnect_now_output s reason code = elim (Bool-cases s.connected) [
  | (inl e) ↦ ground (arith, e)
  | (inr e) ↦ ground (arith, e, append-nil s.output)
]

disconnect_now_queue :
    (s : Session) (reason : String) (code : ℕ)
    → Session.write_queue (disconnect_now s reason code)
      ≡ (if s.connected then Queue.close no_frame s.write_queue else s.write_queue)
unfolding disconnect_now write_frame disconnect_from_node close
disconnect_now_queue s reason code = ground arith

close-IsValid :
    (q : Queue SentFrame) → IsValid no_frame q → IsValid no_frame (Queue.close no_frame q)
unfolding call
close-IsValid q v =
    let (r, y, e, w, sim) = call-Simulates no_frame q closes tt v in
    let same : r ≡ Queue.close no_frame q = ground (arith, e) in subst (IsValid no_frame) same w

disconnect_now-IsValid :
    (s : Session) (reason : String) (code : ℕ)
    → IsValid no_frame s.write_queue
    → IsValid no_frame (Session.write_queue (disconnect_now s reason code))
disconnect_now-IsValid s reason code v =
    rw (disconnect_now_queue s reason code) (elim (Bool-cases s.connected) [
      | (inl e) ↦ rw e (close-IsValid s.write_queue v)
      | (inr e) ↦ rw e v
    ])

-- The counters of a write that failed.
abbrev failed_write : Session → Bool → Session
failed_write s timed_out = record s {
  metrics = record s.metrics {
    write_timeout =
        if timed_out then counter_add s.metrics.write_timeout 1 else s.metrics.write_timeout;
    failed_sent = counter_add s.metrics.failed_sent 1;
  };
}

-- One round's handling of a frame.
record Handled (result : WriteResult) (s : Session) (f : SentFrame) : Type 0 where
  output : Session.output (handle_item result s f).0 ≡ s.output ++ (delivery s.connected result f).0
  status : (handle_item result s f).1 ≡ (delivery s.connected result f).1
  valid : IsValid no_frame (Session.write_queue (handle_item result s f).0)
  going :
      (delivery s.connected result f).1 ≡ running
      → (Session.write_queue (handle_item result s f).0 ≡ s.write_queue)
        × (Session.connected (handle_item result s f).0 ≡ s.connected)

-- A frame that ends in the session being disconnected.
hung_up-Handled :
    (result : WriteResult) (s s' : Session) (f : SentFrame) (reason : String) (code : ℕ)
    (front : List Output)
    → handle_item result s f ≡ (disconnect_now s' reason code, stopped)
    → delivery s.connected result f ≡ (front ++ hang_up s.connected reason code, stopped)
    → s'.output ≡ s.output ++ front
    → s'.connected ≡ s.connected
    → s'.write_queue ≡ s.write_queue
    → IsValid no_frame s.write_queue
    → Handled result s f
hung_up-Handled result s s' f reason code front e d out on queue v = record {
  output =
      ap (λ (x : Session × Status). Session.output x.0) e
      ∙ disconnect_now_output s' reason code
      ∙ ap (λ x. x ++ hang_up s'.connected reason code) out
      ∙ append_assoc s.output front (hang_up s'.connected reason code)
      ∙ ap (λ b. s.output ++ (front ++ hang_up b reason code)) on
      ∙ ap (λ (x : List Output × Status). s.output ++ x.0) (sym d);
  status = ap (λ (x : Session × Status). x.1) e ∙ ap (λ (x : List Output × Status). x.1) (sym d);
  valid =
      subst (λ (x : Session × Status). IsValid no_frame (Session.write_queue x.0)) (sym e)
        (disconnect_now-IsValid s' reason code (rw queue v));
  going = λ h. absurd (ground (arith, d, h));
}

handle_item_typed :
    (t : FrameType) (result : WriteResult) (s : Session) (f : SentFrame)
    → f.frame_type ≡ t
    → IsValid no_frame s.write_queue
    → Handled result s f
unfolding handle_item after_write write_frame
handle_item_typed text_frame write_ok s f e v = record {
  output = rw (e, handle_item) refl;
  status = rw (e, handle_item) refl;
  valid = rw (e, handle_item) v;
  going = λ h. rw (e, handle_item) (refl, refl);
}
handle_item_typed binary_frame write_ok s f e v = record {
  output = rw (e, handle_item) refl;
  status = rw (e, handle_item) refl;
  valid = rw (e, handle_item) v;
  going = λ h. rw (e, handle_item) (refl, refl);
}
handle_item_typed text_frame write_timed_out s f e v =
    hung_up-Handled write_timed_out s (failed_write s true) f "Write Failed" close_abnormal_closure
      [] (rw (e, handle_item) refl) (rw e refl) (sym (append-nil s.output)) refl refl v
handle_item_typed text_frame write_failed s f e v =
    hung_up-Handled write_failed s (failed_write s false) f "Write Failed" close_abnormal_closure []
      (rw (e, handle_item) refl) (rw e refl) (sym (append-nil s.output)) refl refl v
handle_item_typed binary_frame write_timed_out s f e v =
    hung_up-Handled write_timed_out s (failed_write s true) f "Write Failed" close_abnormal_closure
      [] (rw (e, handle_item) refl) (rw e refl) (sym (append-nil s.output)) refl refl v
handle_item_typed binary_frame write_failed s f e v =
    hung_up-Handled write_failed s (failed_write s false) f "Write Failed" close_abnormal_closure []
      (rw (e, handle_item) refl) (rw e refl) (sym (append-nil s.output)) refl refl v
handle_item_typed unknown_frame result s f e v =
    hung_up-Handled result s (failed_write s false) f "Write Failed" close_abnormal_closure []
      (rw (e, handle_item) refl) (rw e refl) (sym (append-nil s.output)) refl refl v
handle_item_typed close_frame result s f e v =
    hung_up-Handled result s
      (record s { output = s.output ++ closed_with f.close_code f.close_reason ∷ [] }) f
      "Close frame sent" close_normal_closure (closed_with f.close_code f.close_reason ∷ [])
      (rw (e, handle_item) refl) (rw e refl) refl refl refl v

handle_item-Handled :
    (result : WriteResult) (s : Session) (f : SentFrame)
    → IsValid no_frame s.write_queue
    → Handled result s f
handle_item-Handled result s f v = handle_item_typed f.frame_type result s f refl v

-- One round, by what the queue holds: the routine waits, or takes the oldest frame.
send_round_empty :
    (result : WriteResult) (s : Session)
    → IsValid no_frame s.write_queue
    → s.write_queue.closed ≡ false
    → pending s ≡ []
    → send_round result s ≡ some (s, waiting)
unfolding send_round
send_round_empty result s v e none_left =
    let w = wait-view no_frame s.write_queue v in ground (arith, w, e, none_left)

send_round_taking :
    (result : WriteResult) (s : Session) (queue : Queue SentFrame) (item : Item SentFrame)
    (items : List (Item SentFrame))
    → IsValid no_frame s.write_queue
    → s.write_queue.closed ≡ false
    → pending s ≡ item ∷ items
    → Queue.remove no_frame s.write_queue ≡ some (queue, some item)
    → send_round result s
      ≡ some (handle_item result (record s { write_queue = queue }) item.item_data)
unfolding send_round take_item
send_round_taking result s queue item items v e f took =
    let w : Queue.wait no_frame s.write_queue ≡ returns true =
      wait-view no_frame s.write_queue v ∙ rw (e, f) refl in
    rw (w, send_round, took) refl

take_oldest :
    (q : Queue SentFrame) (item : Item SentFrame) (items : List (Item SentFrame))
    → IsValid no_frame q
    → contents no_frame q ≡ item ∷ items
    → (queue : Queue SentFrame) × (Queue.remove no_frame q ≡ some (queue, some item))
      × (IsValid no_frame queue)
      × (contents no_frame queue ≡ items)
      × (queue.closed ≡ q.closed)
unfolding call
take_oldest q item items v e =
    let (r, y, done, w, sim) = call-Simulates no_frame q removes tt v in
    elim (Option-cases (Queue.remove no_frame q)) [
      | (inl f) ↦ absurd (ground (arith, done, f))
      | (inr ((queue, o), f)) ↦
          let same : r ≡ queue = ground (arith, done, f) in
          (r, ground (arith, f, done, sim, e), w, ground (arith, sim, e), ground (arith, sim, e))
    ]

-- A run of the routine that does to the connection what delivering the frames does.
pub record Delivered (results : List WriteResult) (s : Session) : Type 0 where
  pub after : Session
  pub status : Status
  pub returned : send_messages results s ≡ some (after, status)
  pub ends : status ≡ (deliveries s.connected results (pending s)).1
  pub output : after.output ≡ s.output ++ (deliveries s.connected results (pending s)).0
  pub valid : IsValid no_frame after.write_queue

-- The rounds after one that handled a frame.
next_rounds :
    (result : WriteResult) (results : List WriteResult) (s s' : Session) (item : Item SentFrame)
    (items : List (Item SentFrame)) (status : Status)
    → pending s ≡ item ∷ items
    → send_round result s ≡ some (s', status)
    → status ≡ (delivery s.connected result item.item_data).1
    → s'.output ≡ s.output ++ (delivery s.connected result item.item_data).0
    → IsValid no_frame s'.write_queue
    → (status ≡ running
        → (pending s' ≡ items) × (s'.connected ≡ s.connected) × Delivered results s')
    → Delivered (result ∷ results) s
unfolding send_messages
next_rounds result results s s' item items waiting e round st out v further =
    let d = delivery s.connected result item.item_data in
    let same = then_deliver_as d (deliveries s.connected results items) waiting st in
    record {
      after = s';
      status = waiting;
      returned = rw round refl;
      ends = rw (e, same) refl;
      output = rw (e, same) out;
      valid = v;
    }
next_rounds result results s s' item items stopped e round st out v further =
    let d = delivery s.connected result item.item_data in
    let same = then_deliver_as d (deliveries s.connected results items) stopped st in
    record {
      after = s';
      status = stopped;
      returned = rw round refl;
      ends = rw (e, same) refl;
      output = rw (e, same) out;
      valid = v;
    }
next_rounds result results s s' item items running e round st out v further =
    let (left, on, r) = further refl in
    let d = delivery s.connected result item.item_data in
    let rest = deliveries s.connected results items in
    let same = then_deliver_as d rest running st in
    let rest_same : deliveries s'.connected results (pending s') ≡ rest =
      ap (deliveries s'.connected results) left ∙ ap (λ b. deliveries b results items) on in
    record {
      after = r.after;
      status = r.status;
      returned = rw round r.returned;
      ends = rw (e, same) (r.ends ∙ ap (λ (x : List Output × Status). x.1) rest_same);
      output =
          rw (e, same)
            (r.output
              ∙ ap (λ (x : List Output × Status). s'.output ++ x.0) rest_same
              ∙ ap (λ front. front ++ rest.0) out
              ∙ append_assoc s.output d.0 rest.0);
      valid = r.valid;
    }

-- On an open, well formed queue the writing routine never panics, and whatever the writes give, it
-- does to the connection exactly what delivering the frames that wait one after the other does,
-- oldest first: up to the first that is a close frame or fails to be written, which also closes the
-- connection of a session that is still connected and stops the routine, or until no frame is left
-- and the routine waits.
pub send_messages-Delivered :
    (results : List WriteResult) (s : Session)
    → IsValid no_frame s.write_queue
    → s.write_queue.closed ≡ false
    → Delivered results s
unfolding send_messages
send_messages-Delivered [] s v e = record {
  after = s;
  status = running;
  returned = refl;
  ends = refl;
  output = sym (append-nil s.output);
  valid = v;
}
send_messages-Delivered (result ∷ results) s v e = elim (List-cases (pending s)) [
  | (inl f) ↦ record {
    after = s;
    status = waiting;
    returned = rw (send_round_empty result s v e f) refl;
    ends = rw f refl;
    output = rw f (sym (append-nil s.output));
    valid = v;
  }
  | (inr (item, items, f)) ↦
      let (queue, took, w, left, shut) = take_oldest s.write_queue item items v f in
      let taken : Session = record s { write_queue = queue } in
      let h = handle_item-Handled result taken item.item_data w in
      let (s', status) = handle_item result taken item.item_data in
      next_rounds result results s s' item items status f
        (send_round_taking result s queue item items v e f took) h.status h.output h.valid
        (λ going.
          let (same, on) = h.going (sym h.status ∙ going) in
          (
            ap (contents no_frame) same ∙ left,
            on,
            send_messages-Delivered results s' h.valid (ap Queue.closed same ∙ shut ∙ e),
          ))
]
