-- ===== src/Session/Frames.antt =====
-- node/session.go: frames sent to the queue and to the connection, and the ways to close a session.
-- Sending can disconnect a slow client, which sends again: `depth` bounds how often, and Overflow
-- shows that a depth of two is always enough. `none` is a panic of the queue, or no depth left.
pub mod Queueing
pub mod Overflow
use anycable.Prelude.{
  uint64, ℕ, zero, suc, ◌+◌, ◌%◌, Bool, true, false, Option, none, some, List, [], ◌∷◌, ◌++◌,
  String, string_eq, ◌==◌, length, if◌then◌else◌,
}
use anycable.Utils.Queue
use anycable.Utils.Queue.{Queue, Item, PushResult, push_ok, push_closed, push_overflow, ◌>>=◌}
use anycable.Session.Timers.{stop}
use anycable.Session.State.{
  FrameType, text_frame, close_frame, binary_frame, unknown_frame, SentFrame, no_frame,
  close_frame_of, close_normal_closure, close_going_away, Output, wrote, wrote_binary, closed_with,
  Metrics, Session, Message, disconnect_message, Encoded, encoding_failed, encoded_nothing, encoded,
}

-- A metrics counter, a uint64.
abbrev pub counter_add : ℕ → ℕ → ℕ
counter_add count n = (count + n) % uint64

-- What the connection does with a frame it is to write.
pub data WriteResult : Type 0 where
  write_ok write_timed_out write_failed : WriteResult

unfoldable pub close : Session → Session
close s = if s.closed then s else record s { closed = true; timers = stop s.timers }

unfoldable pub disconnect_from_node : Session → Session
disconnect_from_node s = record s {
  connected = false;
  disconnects = if s.connected then s.disconnects + 1 else s.disconnects;
}

abbrev pub write_data : WriteResult → Session → Output → List ℕ → Session × WriteResult
write_data write_ok s out payload = (
  record s {
    output = s.output ++ out ∷ [];
    metrics = record s.metrics { data_sent = counter_add s.metrics.data_sent (length payload) };
  },
  write_ok,
)
write_data write_timed_out s out payload = (s, write_timed_out)
write_data write_failed s out payload = (s, write_failed)

-- `writeFrame`: `result` is what writing data gives. A close frame always ends in an error.
unfoldable pub write_frame : WriteResult → Session → SentFrame → Session × WriteResult
write_frame result s f = elim f.frame_type [
  | text_frame ↦ write_data result s (wrote f.payload) f.payload
  | binary_frame ↦ write_data result s (wrote_binary f.payload) f.payload
  | close_frame ↦
      (record s { output = s.output ++ closed_with f.close_code f.close_reason ∷ [] }, write_failed)
  | unknown_frame ↦ (s, write_failed)
]

unfoldable pub disconnect_now : Session → String → ℕ → Session
unfolding disconnect_from_node close
disconnect_now s reason code =
    let off = (write_frame write_ok (disconnect_from_node s) (close_frame_of reason code)).0 in
    if s.connected
    then close (record off { write_queue = Queue.close no_frame off.write_queue })
    else s

abbrev pub close_reason_of : String → String
close_reason_of code =
    if code == "server_restart"
    then "Server restart"
    else if code == "remote"
    then "Closed remotely"
    else ""

abbrev pub close_code_of : String → ℕ
close_code_of code = if code == "server_restart" then close_going_away else close_normal_closure

-- `sendFrame` is an argument of what it calls.
module _ (send_by : Session → SentFrame → Option Session) where
  abbrev pub send_encoded : Session → Encoded → Option Session
  send_encoded s encoding_failed = some s
  send_encoded s encoded_nothing = some s
  send_encoded s (encoded f) = send_by s f

  unfoldable pub disconnect_by : Session → String → ℕ → Option Session
  unfolding close disconnect_from_node
  disconnect_by s reason code = do
    s' ← send_by s (close_frame_of reason code)
    some (disconnect_from_node (close s'))

  unfoldable pub disconnect_with_message_by : Session → Encoded → String → Option Session
  unfolding disconnect_by
  disconnect_with_message_by s message code = do
    s' ← send_encoded s message
    disconnect_by s' (close_reason_of code) (close_code_of code)

-- The encoder is the session's own, so an argument.
module _ (encode : Message → Encoded) where
  -- What an answer of the queue makes `sendFrame` do.
  abbrev pub after_push :
      (Session → SentFrame → Option Session)
      → Session
      → Queue SentFrame
      → PushResult
      → Option Session
  after_push send_by s queue push_closed = some (record s { write_queue = queue })
  after_push send_by s queue push_ok = some (record s { write_queue = queue })
  after_push send_by s queue push_overflow =
      disconnect_with_message_by send_by
        (record s {
          write_queue = queue;
          max_pending_size = 0;
          metrics = record s.metrics {
            disconnected_slow_clients = counter_add s.metrics.disconnected_slow_clients 1;
          };
        })
        (encode (disconnect_message "too_slow" true)) "too_slow"

  unfoldable pub send_frame_within : ℕ → Session → SentFrame → Option Session
  unfolding disconnect_with_message_by
  send_frame_within zero s f = none
  send_frame_within (suc depth) s f = do
    (queue, answer) ←
        Queue.push no_frame s.write_queue (record { size = length f.payload; item_data = f })
          s.max_pending_size
    after_push (send_frame_within depth) s queue answer

  unfoldable pub send_frame : Session → SentFrame → Option Session
  unfolding send_frame_within
  send_frame s f = send_frame_within 2 s f

  unfoldable pub send : Session → Message → Option Session
  unfolding send_frame
  send s m = send_encoded send_frame s (encode m)

  unfoldable pub disconnect : Session → String → ℕ → Option Session
  unfolding disconnect_by send_frame
  disconnect s reason code = disconnect_by send_frame s reason code

  unfoldable pub disconnect_with_message : Session → Message → String → Option Session
  unfolding disconnect_with_message_by send_frame
  disconnect_with_message s m code = disconnect_with_message_by send_frame s (encode m) code
