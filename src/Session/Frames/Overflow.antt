-- ===== src/Session/Frames/Overflow.antt =====
-- node/session.go, `sendFrame`: a frame is queued, or the client was too slow and is disconnected.
use anycable.Prelude.{
  uint64, ℕ, suc, ◌+◌, ◌<◌, ◌≡◌, ◌∙◌, Bool, true, false, not, ◌&&◌, ◌||◌, some, List, [], ◌∷◌, ◌++◌,
  String, string_eq, arith, refl, ap, sym, append-nil, append_assoc, length, if◌then◌else◌,
  Bool-cases, inl, inr,
}
use anycable.Utils.Queue.{Queue, Item, push_ok, push_closed, push_overflow}
use anycable.Utils.Queue.Invariant.{IsValid, contents}
use anycable.Session.State.{
  SentFrame, no_frame, close_frame_of, close_normal_closure, Session, Message, disconnect_message,
  Encoded, encoding_failed, encoded_nothing, encoded,
}
use anycable.Session.Frames.{
  counter_add, close, close_reason_of, close_code_of, disconnect_from_node, send_encoded,
  disconnect_by, disconnect_with_message_by, send_frame_within,
}
use anycable.Session.Frames.Queueing.{item_of, pending, is_over, push-Answered}

-- With no limit on what may wait, sending only queues.
record Queued (s : Session) (f : SentFrame) (queue : Queue SentFrame) : Type 0 where
  valid : IsValid no_frame queue
  shut : queue.closed ≡ s.write_queue.closed
  items :
      contents no_frame queue
      ≡ (if s.write_queue.closed then pending s else pending s ++ item_of f ∷ [])

module _ (encode : Message → Encoded) where
  send_unlimited :
      (s : Session) (f : SentFrame)
      → length f.payload < uint64
      → IsValid no_frame s.write_queue
      → s.max_pending_size ≡ 0
      → (queue : Queue SentFrame) × (Queued s f queue)
        × ((depth : ℕ)
            → send_frame_within encode (suc depth) s f ≡ some (record s { write_queue = queue }))
  unfolding send_frame_within
  send_unlimited s f small v unlimited =
      let a = push-Answered s.write_queue (item_of f) s.max_pending_size small v in
      let open_ended : is_over s.write_queue s.max_pending_size ≡ false = ground arith in
      elim (Bool-cases s.write_queue.closed) [
        | (inl e) ↦
            let refused : a.answer ≡ push_closed = ground (arith, a.reply) in
            (
              a.after,
              record {
                valid = a.valid;
                shut = a.shut;
                items = ground (arith, a.items, open_ended);
              },
              λ depth. rw (a.returned, refused) refl,
            )
        | (inr e) ↦
            let accepted : a.answer ≡ push_ok = ground (arith, a.reply, open_ended) in
            (
              a.after,
              record {
                valid = a.valid;
                shut = a.shut;
                items = ground (arith, a.items, open_ended);
              },
              λ depth. rw (a.returned, accepted) refl,
            )
      ]

  -- The item that an encoded message is queued as.
  abbrev pub notice : Encoded → List (Item SentFrame)
  notice (encoded g) = item_of g ∷ []
  notice encoding_failed = []
  notice encoded_nothing = []

  abbrev pub IsSmallEncoded : Encoded → Type 0
  IsSmallEncoded (encoded g) = length g.payload < uint64
  IsSmallEncoded encoding_failed = Unit {0}
  IsSmallEncoded encoded_nothing = Unit {0}

  -- A queue that took what was sent, after what it had.
  record Took (s : Session) (sent : List (Item SentFrame)) (queue : Queue SentFrame) : Type 0 where
    valid : IsValid no_frame queue
    open_still : queue.closed ≡ false
    items : contents no_frame queue ≡ pending s ++ sent

  send_frame_open :
      (s : Session) (f : SentFrame)
      → length f.payload < uint64
      → IsValid no_frame s.write_queue
      → s.max_pending_size ≡ 0
      → s.write_queue.closed ≡ false
      → (queue : Queue SentFrame) × (Took s (item_of f ∷ []) queue)
        × ((depth : ℕ)
            → send_frame_within encode (suc depth) s f ≡ some (record s { write_queue = queue }))
  send_frame_open s f small v unlimited e =
      let (queue, q, runs) = send_unlimited s f small v unlimited in
      (
        queue,
        record { valid = q.valid; open_still = q.shut ∙ e; items = ground (arith, q.items) },
        runs,
      )

  send_encoded_open :
      (s : Session) (m : Encoded)
      → IsSmallEncoded m
      → IsValid no_frame s.write_queue
      → s.max_pending_size ≡ 0
      → s.write_queue.closed ≡ false
      → (queue : Queue SentFrame) × (Took s (notice m) queue)
        × ((depth : ℕ)
            → send_encoded (send_frame_within encode (suc depth)) s m
              ≡ some (record s { write_queue = queue }))
  send_encoded_open s (encoded g) small v unlimited e = send_frame_open s g small v unlimited e
  send_encoded_open s encoding_failed small v unlimited e = (
    s.write_queue,
    record { valid = v; open_still = e; items = sym (append-nil (pending s)) },
    λ depth. refl,
  )
  send_encoded_open s encoded_nothing small v unlimited e = (
    s.write_queue,
    record { valid = v; open_still = e; items = sym (append-nil (pending s)) },
    λ depth. refl,
  )

  -- The session closed, and gone from the node, with the queue left to the writer.
  abbrev disconnected : Session → Queue SentFrame → Session
  disconnected s queue = disconnect_from_node (close (record s { write_queue = queue }))

  disconnected_lem :
      (s : Session) (queue : Queue SentFrame)
      → ((disconnected s queue).write_queue ≡ queue)
        × ((disconnected s queue).closed ≡ true)
        × ((disconnected s queue).connected ≡ false)
        × ((disconnected s queue).output ≡ s.output)
        × ((disconnected s queue).disconnects
            ≡ (if s.connected then s.disconnects + 1 else s.disconnects))
  unfolding close disconnect_from_node
  disconnected_lem s queue = (ground arith, ground arith, ground arith, ground arith, ground arith)

  disconnect_with_message_open :
      (s : Session) (m : Encoded) (code : String)
      → IsSmallEncoded m
      → IsValid no_frame s.write_queue
      → s.max_pending_size ≡ 0
      → s.write_queue.closed ≡ false
      → (queue : Queue SentFrame) × (Took s
          (notice m ++ item_of (close_frame_of (close_reason_of code) (close_code_of code)) ∷ [])
          queue)
        × ((depth : ℕ)
            → disconnect_with_message_by (send_frame_within encode (suc depth)) s m code
              ≡ some (disconnected s queue))
  unfolding disconnect_with_message_by
  disconnect_with_message_open s m code small v unlimited e =
      let f = close_frame_of (close_reason_of code) (close_code_of code) in
      let (noticed, took, runs) = send_encoded_open s m small v unlimited e in
      let (queue, took', runs') =
        send_frame_open (record s { write_queue = noticed }) f (omega arith) took.valid unlimited
          took.open_still in
      (
        queue,
        record {
          valid = took'.valid;
          open_still = took'.open_still;
          items =
              took'.items
              ∙ ap (λ front. front ++ item_of f ∷ []) took.items
              ∙ append_assoc (pending s) (notice m) (item_of f ∷ []);
        },
        λ depth. rw (runs depth, disconnect_by, runs' depth) refl,
      )

  -- The client has not read what is queued for it up to the limit.
  abbrev pub is_slow : Session → Bool
  is_slow s = not s.write_queue.closed && is_over s.write_queue s.max_pending_size

  -- What sending a frame comes to.
  pub record IsSent (s : Session) (f : SentFrame) (after : Session) : Type 0 where
    pub valid : IsValid no_frame after.write_queue
    pub queued : pending after ≡ (
        if s.write_queue.closed
        then pending s
        else if is_slow s
        then notice (encode (disconnect_message "too_slow" true))
          ++ item_of (close_frame_of "" close_normal_closure) ∷ []
        else pending s ++ item_of f ∷ [])
    pub ended : after.closed ≡ is_slow s || s.closed
    pub gone : after.connected ≡ not (is_slow s) && s.connected
    pub told :
        after.disconnects ≡ (if is_slow s && s.connected then s.disconnects + 1 else s.disconnects)
    pub quiet : after.output ≡ s.output
    pub shut : after.write_queue.closed ≡ s.write_queue.closed

  -- The session as a slow client leaves it, before it is disconnected.
  abbrev unlimited : Session → Queue SentFrame → Session
  unlimited s queue = record s {
    write_queue = queue;
    max_pending_size = 0;
    metrics = record s.metrics {
      disconnected_slow_clients = counter_add s.metrics.disconnected_slow_clients 1;
    };
  }

  -- On a well formed queue, when the payload of the frame and of the encoded too_slow message are
  -- below 2^64 bytes, sending a frame never panics and ends within two rounds, however many more it
  -- may take. On a closed queue the frame is dropped. When what waits to be written has reached the
  -- limit, everything that waits is dropped, and the frame too: in its place the queue gets the
  -- too_slow message, if it can be encoded, and a close frame, the session is closed, and it leaves
  -- the node, whose Disconnect is called if it was connected. Else the frame is queued behind the
  -- others, and the session stays open, connected or not, as it was.
  pub send_frame-IsSent :
      (s : Session) (f : SentFrame)
      → length f.payload < uint64
      → IsSmallEncoded (encode (disconnect_message "too_slow" true))
      → IsValid no_frame s.write_queue
      → (after : Session) × (IsSent s f after)
        × ((more : ℕ) → send_frame_within encode (suc (suc more)) s f ≡ some after)
  unfolding send_frame_within
  send_frame-IsSent s f small small' v =
      let a = push-Answered s.write_queue (item_of f) s.max_pending_size small v in
      elim (Bool-cases s.write_queue.closed) [
        | (inl e) ↦ (
          record s { write_queue = a.after },
          record {
            valid = a.valid;
            queued = ground (arith, a.items, e);
            ended = ground (arith, e);
            gone = ground (arith, e);
            told = ground (arith, e);
            quiet = refl;
            shut = a.shut;
          },
          λ more.
              let refused : a.answer ≡ push_closed = ground (arith, a.reply, e) in
              rw (a.returned, refused) refl,
        )
        | (inr e) ↦ elim (Bool-cases (is_over s.write_queue s.max_pending_size)) [
          | (inl o) ↦
              let over : a.answer ≡ push_overflow = ground (arith, a.reply, e, o) in
              let cleared : contents no_frame a.after ≡ [] = ground (arith, a.items, e, o) in
              let s' = unlimited s a.after in
              let message = encode (disconnect_message "too_slow" true) in
              let (queue, took, runs) =
                disconnect_with_message_open s' message "too_slow" small' a.valid refl
                  (a.shut ∙ e) in
              let (left, ended, gone, quiet, told) = disconnected_lem s' queue in
              (
                disconnected s' queue,
                record {
                  valid = rw left took.valid;
                  queued = ap (contents no_frame) left ∙ ground (arith, took.items, cleared, e, o);
                  ended = ground (arith, ended, e, o);
                  gone = ground (arith, gone, e, o);
                  told = ground (arith, told, e, o);
                  quiet = quiet;
                  shut = ground (arith, left, took.open_still, e);
                },
                λ more. rw (a.returned, over) (runs more),
              )
          | (inr o) ↦ (
            record s { write_queue = a.after },
            record {
              valid = a.valid;
              queued = ground (arith, a.items, e, o);
              ended = ground (arith, e, o);
              gone = ground (arith, e, o);
              told = ground (arith, e, o);
              quiet = refl;
              shut = a.shut;
            },
            λ more.
                let accepted : a.answer ≡ push_ok = ground (arith, a.reply, e, o) in
                rw (a.returned, accepted) refl,
          )
        ]
      ]
