-- ===== src/Node/Replies.antt =====
-- node/node.go: what the node does with the controller's answer to a command
-- (`handleCommandReply` and what it calls), and with a client that goes (`Disconnect`). A panic of
-- the broker is the only way not to come back. `now` is in Unix seconds, `now_ms` in milliseconds.
use anycable.Prelude.{
  ℕ, Bool, true, Option, none, some, List, [], ◌∷◌, String, string_eq, if◌then◌else◌, Eq,
}
use anycable.Prelude.Dict.{Dict}
use anycable.Common.{StreamMessage}
use anycable.Common.Env.{merge_channel_state, merge_connection_state}
use anycable.Broker.Outcome.{Outcome, ok, ◌>>=◌}
use anycable.Broker.Tracker
use anycable.Broker.Memory.{handle_broadcast}
use anycable.Broker.Presence.{PresenceEvent}
use anycable.Hub.{subscribe_session, unsubscribe_session, unsubscribe_session_from_channel}
use anycable.Hub.Gate.{HubSession}
use anycable.Node.Subscriptions.{add_channel_stream, remove_channel_stream, remove_channel_streams}
use anycable.Node.State.{Node, transmission, send}

pub data Status : Type 0 where
  success failure error : Status

pub record CommandResult (Info : Type 0) : Type 0 where
  pub stop_all_streams : Bool
  pub disconnect : Bool
  pub streams : Option (List String)
  pub stopped_streams : Option (List String)
  pub transmissions : List String
  pub broadcasts : List StreamMessage
  pub connection_state : Option (Dict String String)
  pub channel_state : Option (Dict String String)
  pub presence : Option (PresenceEvent Info)
  -- `DisconnectInterest` is -1, 0 or 1 in the code; here whether it is not negative.
  pub disconnect_interest : Bool
  pub status : Status

pub data NodeError : Type 0 where
  already_subscribed unknown_subscription : NodeError
  controller_failed : NodeError
  presence_stream_missing presence_data_missing unknown_presence_event : NodeError
  presence_failed : NodeError
  history_missing history_failed : NodeError
  not_a_string : NodeError

-- Whether `err` is nil for the caller.
abbrev pub failure_of : {A : Type 0} → Outcome A → Option NodeError
failure_of (ok a) = none
failure_of _ = some presence_failed

-- The message that `broadcastPresenceEvent` sends.
abbrev pub presence_message : String → String → StreamMessage
presence_message stream payload = record {
  stream = stream;
  payload = payload;
  meta = some (record { exclude_socket = ""; broadcast_type = "presence"; transient = true });
  offset = 0;
  epoch = "";
}

module _ {S Info : Type 0} ⦃e : Eq S⦄ ⦃i : HubSession S⦄ where
  -- `n.broker.Unsubscribe`
  unfoldable pub release : Node S Info → String → Node S Info
  release n stream = record n { tracked = Tracker.unsubscribe n.tracked stream }

  unfoldable pub release_all : Node S Info → List String → Node S Info
  unfolding release
  release_all n [] = n
  release_all n (stream ∷ streams) = release_all (release n stream) streams

  unfoldable pub stop_stream : Node S Info → String → String → Node S Info
  stop_stream n identifier stream =
      let s = n.session in
      record n {
        tracked = Tracker.unsubscribe n.tracked stream;
        hub = unsubscribe_session n.hub s.handle stream identifier;
        session = record s {
          subscriptions = remove_channel_stream s.subscriptions identifier stream;
        };
      }

  -- The loop over `reply.StoppedStreams`.
  unfoldable pub stop_streams : Node S Info → String → List String → Node S Info
  unfolding stop_stream
  stop_streams n identifier [] = n
  stop_streams n identifier (stream ∷ streams) =
      stop_streams (stop_stream n identifier stream) identifier streams

  unfoldable pub start_stream : Node S Info → String → String → Node S Info
  start_stream n identifier stream =
      let s = n.session in
      record n {
        tracked = Tracker.subscribe n.tracked stream;
        hub = subscribe_session n.hub s.handle stream identifier;
        session = record s { subscriptions = add_channel_stream s.subscriptions identifier stream };
      }

  -- The loop over `reply.Streams`.
  unfoldable pub start_streams : Node S Info → String → List String → Node S Info
  unfolding start_stream
  start_streams n identifier [] = n
  start_streams n identifier (stream ∷ streams) =
      start_streams (start_stream n identifier stream) identifier streams

  unfoldable pub stop_all : Node S Info → String → Node S Info
  unfolding release_all
  stop_all n identifier =
      let s = n.session in
      let (subscriptions, removed) = remove_channel_streams s.subscriptions identifier in
      release_all
        (record n {
          hub = unsubscribe_session_from_channel n.hub s.handle identifier;
          session = record s { subscriptions = subscriptions };
        })
        removed

  -- The part of `handleCommandReply` on streams that go.
  unfoldable pub stop_reply : Node S Info → String → CommandResult Info → Node S Info
  unfolding stop_all stop_streams
  stop_reply n identifier reply =
      if reply.stop_all_streams then stop_all n identifier else (elim reply.stopped_streams [
        | none ↦ n
        | some streams ↦ stop_streams n identifier streams
      ])

  unfoldable pub start_reply : Node S Info → String → CommandResult Info → Node S Info
  unfolding start_streams
  start_reply n identifier reply = elim reply.streams [
    | none ↦ n
    | some streams ↦ start_streams n identifier streams
  ]

  unfoldable pub channel_reply : Node S Info → String → CommandResult Info → Node S Info
  channel_reply n identifier reply = elim reply.channel_state [
    | none ↦ n
    | some st ↦ record n {
      session = record n.session { env = merge_channel_state n.session.env identifier st };
    }
  ]

  unfoldable pub broadcast_all : ℕ → Node S Info → List StreamMessage → Outcome (Node S Info)
  broadcast_all now n [] = ok n
  broadcast_all now n (msg ∷ msgs) = do
    memory ← handle_broadcast now n.memory msg
    broadcast_all now (record n { memory = memory }) msgs

  unfoldable pub transmit : Node S Info → List String → Node S Info
  unfolding send
  transmit n [] = n
  transmit n (t ∷ ts) = transmit (send n (transmission t)) ts

  unfoldable pub handle_call_reply : ℕ → Node S Info → CommandResult Info → Outcome (Node S Info)
  unfolding broadcast_all transmit
  handle_call_reply now n reply = do
    let merged : Node S Info = elim reply.connection_state [
      | none ↦ n
      | some st ↦ record n {
        session = record n.session { env = merge_connection_state n.session.env st };
      }
    ]
    told ← broadcast_all now merged reply.broadcasts
    ok (transmit told reply.transmissions)
