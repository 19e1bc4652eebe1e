-- ===== src/Session/State.antt =====
-- node/session.go, the fields of `Session` that its connection, timers and queue of frames work on.
-- `output` is what the connection was given, in order; `disconnects` counts the calls of the
-- executor's Disconnect, and the counters are the metrics. The queue is that of utils/queue.go.
use anycable.Prelude.{ℕ, Bool, false, List, [], String}
use anycable.Utils.Queue
use anycable.Utils.Queue.{Queue}
use anycable.Session.Timers.{SessionTimers, new_session_timers}

pub data FrameType : Type 0 where
  text_frame close_frame binary_frame unknown_frame : FrameType

-- `payload` is in bytes.
pub record SentFrame : Type 0 where
  pub frame_type : FrameType
  pub payload : List ℕ
  pub close_code : ℕ
  pub close_reason : String

-- What stands for the nil pointer that the queue clears its slots with.
abbrev pub no_frame : SentFrame
no_frame = record { frame_type = unknown_frame; payload = []; close_code = 0; close_reason = "" }

abbrev pub close_frame_of : String → ℕ → SentFrame
close_frame_of reason code = record {
  frame_type = close_frame;
  payload = [];
  close_code = code;
  close_reason = reason;
}

-- The close codes of package ws.
abbrev pub close_normal_closure : ℕ
close_normal_closure = 1000

abbrev pub close_going_away : ℕ
close_going_away = 1001

abbrev pub close_abnormal_closure : ℕ
close_abnormal_closure = 1006

-- A call of the connection.
pub data Output : Type 0 where
  wrote wrote_binary : List ℕ → Output
  wrote_ping : Output
  closed_with : ℕ → String → Output

pub record Metrics : Type 0 where
  pub sent_msg : ℕ
  pub failed_sent : ℕ
  pub write_timeout : ℕ
  pub data_sent : ℕ
  pub disconnected_slow_clients : ℕ

abbrev pub no_metrics : Metrics
no_metrics = record {
  sent_msg = 0;
  failed_sent = 0;
  write_timeout = 0;
  data_sent = 0;
  disconnected_slow_clients = 0;
}

-- What the broker is told to keep alive.
pub data Touch : Type 0 where
  touched_presence touched_session : Touch

-- Intervals are in nanoseconds.
pub record Session : Type 0 where
  pub connected : Bool
  pub closed : Bool
  pub write_queue : Queue SentFrame
  pub max_pending_size : ℕ
  pub output : List Output
  pub disconnects : ℕ
  pub metrics : Metrics
  pub timers : SessionTimers
  pub ping_interval : ℕ
  pub send_native_ping : Bool
  pub pong_timeout : ℕ
  pub presence_interval : ℕ
  pub resume_interval : ℕ
  pub inactive : Bool
  pub touches : List Touch

-- `BuildSession`, where a session option has not set anything yet.
abbrev pub build_session : Session
build_session = record {
  connected = false;
  closed = false;
  write_queue = Queue.new_queue no_frame 16;
  max_pending_size = 0;
  output = [];
  disconnects = 0;
  metrics = no_metrics;
  timers = new_session_timers;
  ping_interval = 0;
  send_native_ping = false;
  pong_timeout = 0;
  presence_interval = 0;
  resume_interval = 0;
  inactive = false;
  touches = [];
}

-- What is sent on the session's own account, before it is encoded: `DisconnectMessage` by its reason
-- and whether to reconnect, the pong to a client's ping, a ping with its time, and any other message.
pub data Message : Type 0 where
  disconnect_message : String → Bool → Message
  pong_message : Message
  ping_message : ℕ → Message
  other_message : String → Message

-- What the session's encoder makes of a message.
pub data Encoded : Type 0 where
  encoding_failed encoded_nothing : Encoded
  encoded : SentFrame → Encoded
