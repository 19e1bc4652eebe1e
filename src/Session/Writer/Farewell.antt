-- ===== src/Session/Writer/Farewell.antt =====
-- node/session.go: what a client that was too slow still gets, from `sendFrame` to `SendMessages`.
use anycable.Prelude.{
  uint64, zero, ◌<◌, ◌≡◌, ◌∙◌, true, false, some, List, [], ◌∷◌, ◌++◌, arith, ap, length,
}
use anycable.Utils.Queue.Invariant.{IsValid}
use anycable.Session.State.{
  SentFrame, text_frame, no_frame, close_frame_of, close_normal_closure, Output, wrote, closed_with,
  Session, Message, disconnect_message, Encoded, encoded,
}
use anycable.Session.Frames.{WriteResult, write_ok, send_frame}
use anycable.Session.Frames.Overflow.{is_slow, send_frame-IsSent}
use anycable.Session.Frames.Queueing.{pending, item_of}
use anycable.Session.Writer.{Status, stopped, send_messages}
use anycable.Session.Writer.Delivery.{deliveries, send_messages-Delivered}

deliveries-notice :
    (notice : SentFrame) (more : List WriteResult)
    → notice.frame_type ≡ text_frame
    → deliveries false
        (write_ok ∷ write_ok ∷ more)
        (item_of notice ∷ item_of (close_frame_of "" close_normal_closure) ∷ [])
      ≡ (wrote notice.payload ∷ closed_with close_normal_closure "" ∷ [], stopped)
deliveries-notice notice more text = ground (arith, text)

-- When sending a frame finds the client too slow, on a well formed queue and with a too_slow
-- message that is a text frame, the connection is next given that message, if the writes go well,
-- then closed normally, and the routine stops: nothing that waited before is written, and no more
-- is.
pub send_frame-farewell :
    (encode : Message → Encoded) (s : Session) (f notice : SentFrame) (more : List WriteResult)
    → length f.payload < uint64
    → length notice.payload < uint64
    → encode (disconnect_message "too_slow" true) ≡ encoded notice
    → notice.frame_type ≡ text_frame
    → IsValid no_frame s.write_queue
    → is_slow encode s ≡ true
    → (after done : Session) × (send_frame encode s f ≡ some after)
      × (send_messages (write_ok ∷ write_ok ∷ more) after ≡ some (done, stopped))
      × (done.output ≡ s.output ++ wrote notice.payload ∷ closed_with close_normal_closure "" ∷ [])
unfolding send_frame
send_frame-farewell encode s f notice more small small' e text v slow =
    let (after, sent, runs) = send_frame-IsSent encode s f small (rw e small') v in
    let open_queue : s.write_queue.closed ≡ false = ground arith in
    let waits : pending after
        ≡ item_of notice ∷ item_of (close_frame_of "" close_normal_closure) ∷ [] =
      ground (arith, sent.queued, slow, e, open_queue) in
    let off : after.connected ≡ false = ground (arith, sent.gone, slow) in
    let d =
      send_messages-Delivered (write_ok ∷ write_ok ∷ more) after sent.valid
        (sent.shut ∙ open_queue) in
    let both : deliveries after.connected (write_ok ∷ write_ok ∷ more) (pending after)
        ≡ (wrote notice.payload ∷ closed_with close_normal_closure "" ∷ [], stopped) =
      ap (λ b. deliveries b (write_ok ∷ write_ok ∷ more) (pending after)) off
      ∙ ap (deliveries false (write_ok ∷ write_ok ∷ more)) waits
      ∙ deliveries-notice notice more text in
    let ends : d.status ≡ stopped = d.ends ∙ ap (λ (x : List Output × Status). x.1) both in
    (
      after,
      d.after,
      runs zero,
      d.returned ∙ ap (λ x. some (d.after, x)) ends,
      d.output
          ∙ ap (λ (x : List Output × Status). after.output ++ x.0) both
          ∙ ap (λ out. out ++ wrote notice.payload ∷ closed_with close_normal_closure "" ∷ [])
              sent.quiet,
    )
