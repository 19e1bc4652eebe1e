-- ===== src/Node/Requests.antt =====
-- node/node.go: `handleCommandReply`, and the commands that ask the controller. An error of
-- `History` or of a presence event inside another command is logged, and the command goes on.
use anycable.Prelude.{
  ℕ, Bool, true, false, ◌&&◌, ◌||◌, not, Option, none, some, String, string_eq, ◌==◌, if◌then◌else◌,
  Eq, is_some,
}
use anycable.Prelude.Dict.{is_empty}
use anycable.Common.{StreamMessage}
use anycable.Common.Env.{remove_channel_state, get_channel_state_field}
use anycable.Broker.Outcome.{Outcome, ok, ◌>>=◌}
use anycable.Broker.Memory.{handle_broadcast}
use anycable.Broker.Presence.{PresenceEvent}
use anycable.Hub.Gate.{HubSession}
use anycable.Node.Subscriptions.{has_channel, add_channel, remove_channel, remove_channel_streams}
use anycable.Node.State.{Node, commit_session}
use anycable.Node.Replies.{
  CommandResult, Status, success, NodeError, stop_reply, start_reply, channel_reply,
  handle_call_reply, already_subscribed, unknown_subscription, controller_failed, not_a_string,
}
use anycable.Node.Presence.{handle_presence_reply, leave}
use anycable.Node.Departure.{disconnect_session}
use anycable.Node.Commands.{
  Answer, Message, Reaction, nothing, result, refused, DisconnectMode, fatal, asks_history,
  mark_interest, history_command,
}

-- Whether the reply changes what the cache keeps of the session.
unfoldable pub is_dirty : {Info : Type 0} → Bool → CommandResult Info → Bool
is_dirty removed reply =
    (if reply.stop_all_streams then removed else is_some reply.stopped_streams)
    || (is_some reply.streams || (is_some reply.channel_state || is_some reply.connection_state))

abbrev pub is_success : Status → Bool
is_success success = true
is_success _ = false

abbrev reaction : {Info : Type 0} → Option (CommandResult Info) → Reaction Info
reaction none = nothing
reaction (some reply) = result reply

abbrev status_of : {Info : Type 0} → Option (CommandResult Info) → Option Status
status_of none = none
status_of (some reply) = some reply.status

abbrev is_confirmed : {Info : Type 0} → Option (CommandResult Info) → Bool → Bool
is_confirmed none failed = false
is_confirmed (some reply) failed = not failed && is_success reply.status

-- The session without the channel and its state.
unfoldable pub drop_channel : {S Info : Type 0} → Node S Info → String → Node S Info
drop_channel n identifier =
    let s = n.session in
    record n {
      session = record s {
        env = remove_channel_state s.env identifier;
        subscriptions = remove_channel s.subscriptions identifier;
      };
    }

module _ {S Info : Type 0} ⦃e : Eq S⦄ ⦃i : HubSession S⦄
    (to_json : PresenceEvent (Option Info) → String) (mode : DisconnectMode) (now now_ms : ℕ) where
  abbrev pub reply_presence :
      Node S Info → String → Option (PresenceEvent Info) → Outcome (Node S Info × Option NodeError)
  reply_presence n identifier none = ok (n, none)
  reply_presence n identifier (some p) =
      handle_presence_reply to_json now now_ms n identifier p.event_type (some p)

  -- The node, and whether the session is to be committed. The disconnection is deferred in the code.
  unfoldable pub handle_command_reply :
      Node S Info → String → CommandResult Info → Outcome (Node S Info × Bool)
  unfolding stop_reply start_reply channel_reply is_dirty
  handle_command_reply n identifier reply = do
    let removed = not (is_empty (remove_channel_streams n.session.subscriptions identifier).1)
    let kept =
        channel_reply (start_reply (stop_reply n identifier reply) identifier reply) identifier
          reply
    called ← handle_call_reply now kept reply
    (present, _) ← reply_presence called identifier reply.presence
    let left = disconnect_session now_ms present "Command Failed"
    ok (if reply.disconnect then left else present, is_dirty removed reply)

  abbrev apply_result :
      Node S Info → String → Option (CommandResult Info) → Outcome (Node S Info × Bool)
  apply_result n identifier none = ok (n, false)
  apply_result n identifier (some reply) = handle_command_reply n identifier reply

  abbrev marked : Node S Info → Option (CommandResult Info) → Node S Info
  marked n none = n
  marked n (some reply) = mark_interest mode n reply.disconnect_interest

  pub asked_history : Node S Info → Message Info → Outcome (Node S Info)
  asked_history n msg = do
    (n', _) ← (if asks_history msg.history then history_command n msg else ok (n, none))
    ok n'

  pub asked_presence : Node S Info → Message Info → Outcome (Node S Info)
  asked_presence n msg = elim msg.presence [
    | none ↦ ok n
    | some p ↦ (do
      (n', _) ← handle_presence_reply to_json now now_ms n msg.identifier "join" (some p)
      ok n')
  ]

  -- What follows a confirmed subscription.
  pub confirm : Node S Info → Message Info → Outcome (Node S Info)
  unfolding asked_history asked_presence
  confirm n msg = do n' ← asked_history (commit_session n) msg; asked_presence n' msg

  -- `Subscribe`, once the controller has answered.
  pub finish_subscribe :
      Node S Info → Message Info → Answer Info → Outcome (Node S Info × Reaction Info)
  unfolding handle_command_reply confirm
  finish_subscribe n msg answer = do
    let confirmed = is_confirmed answer.result answer.failed
    let added : Node S Info =
        if confirmed
        then record n {
          session = record n.session {
            subscriptions = add_channel n.session.subscriptions msg.identifier;
          };
        }
        else n
    (replied, _) ← apply_result added msg.identifier answer.result
    let interested = marked replied answer.result
    done ← (if confirmed then confirm interested msg else ok interested)
    ok (done, reaction answer.result)

  -- The answers on which every command stops: the session is closed, there is none, or a fatal error.
  abbrev stops : Node S Info → Answer Info → Bool
  stops n answer =
      n.session.closed
      || answer.closed_meanwhile
      || (if answer.failed then fatal (status_of answer.result) else not (is_some answer.result))

  abbrev stop_reaction : Node S Info → Answer Info → Reaction Info
  stop_reaction n answer =
      if n.session.closed || answer.closed_meanwhile
      then nothing
      else if answer.failed
      then refused controller_failed
      else nothing

  unfoldable pub subscribe :
      Node S Info → Message Info → Answer Info → Outcome (Node S Info × Reaction Info)
  unfolding finish_subscribe
  subscribe n msg answer =
      if has_channel n.session.subscriptions msg.identifier
      then ok (n, refused already_subscribed)
      else if stops n answer
      then ok (n, stop_reaction n answer)
      else finish_subscribe n msg answer

  unfoldable pub leave_presence : Node S Info → String → Outcome (Node S Info)
  leave_presence n stream =
      if stream == "" then ok n else (do (n', _) ← leave to_json now n stream; ok n')

  unfoldable pub finish_unsubscribe :
      Node S Info → Message Info → Answer Info → Outcome (Node S Info × Reaction Info)
  unfolding handle_command_reply drop_channel leave_presence
  finish_unsubscribe n msg answer = do
    let stream =
        if answer.failed then "" else get_channel_state_field n.session.env msg.identifier "$p"
    let dropped = if answer.failed then n else drop_channel n msg.identifier
    let reply : Option (CommandResult Info) = elim answer.result [
      | none ↦ none
      | some r ↦ some (if answer.failed then r else record r { stop_all_streams = true })
    ]
    (replied, _) ← apply_result dropped msg.identifier reply
    done ← leave_presence (commit_session replied) stream
    ok (done, reaction reply)

  unfoldable pub unsubscribe :
      Node S Info → Message Info → Answer Info → Outcome (Node S Info × Reaction Info)
  unfolding finish_unsubscribe
  unsubscribe n msg answer =
      if not (has_channel n.session.subscriptions msg.identifier)
      then ok (n, refused unknown_subscription)
      else if stops n answer
      then ok (n, stop_reaction n answer)
      else finish_unsubscribe n msg answer

  pub finish_perform :
      Node S Info → Message Info → Answer Info → Outcome (Node S Info × Reaction Info)
  unfolding handle_command_reply
  finish_perform n msg answer = do
    (replied, dirty) ← apply_result n msg.identifier answer.result
    ok (if dirty then commit_session replied else replied, reaction answer.result)

  unfoldable pub perform :
      Node S Info → Message Info → Answer Info → Outcome (Node S Info × Reaction Info)
  unfolding finish_perform
  perform n msg answer =
      if not (has_channel n.session.subscriptions msg.identifier)
      then ok (n, refused unknown_subscription)
      else if not (is_some msg.payload)
      then ok (n, refused not_a_string)
      else if stops n answer
      then ok (n, stop_reaction n answer)
      else finish_perform n msg answer

  -- A message for everybody in the channel's whisper stream but the sender; `payload` is the JSON
  -- text of the client's data.
  unfoldable pub whisper : Node S Info → Message Info → String → Outcome (Node S Info)
  whisper n msg payload =
      let stream = get_channel_state_field n.session.env msg.identifier "$w" in
      let sent : StreamMessage = record {
        stream = stream;
        payload = payload;
        meta = some (record {
          exclude_socket = i.get_id n.session.handle;
          broadcast_type = "";
          transient = true;
        });
        offset = 0;
        epoch = "";
      } in
      if stream == ""
      then ok n
      else (do memory ← handle_broadcast now n.memory sent; ok (record n { memory = memory }))

  -- `PresenceJoin` for the event "join", and `PresenceLeave` for "leave".
  unfoldable pub presence_command :
      String → Node S Info → Message Info → Outcome (Node S Info × Option NodeError)
  presence_command event n msg =
      if not (has_channel n.session.subscriptions msg.identifier)
      then ok (n, some unknown_subscription)
      else handle_presence_reply to_json now now_ms n msg.identifier event msg.presence
