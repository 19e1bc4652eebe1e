-- ===== src/Node/Leak.antt =====
-- `Unsubscribe` of node/node.go, and the streams' reference counts of the broker: the channel is
-- taken out of the session before `handleCommandReply` asks which streams it had.
use anycable.Prelude.{
  ℕ, ◌≡◌, refl, ap, ◌∙◌, true, false, Option, none, some, [], String, string_eq, ◌==◌, Eq, arith,
  Bool-cases, inl, inr,
}
use anycable.Prelude.Dict.{is_empty, lookup-delete}
use anycable.Common.Env.{get_channel_state_field}
use anycable.Broker.Outcome.{Outcome, ok, err, panic}
use anycable.Broker.Memory.{handle_broadcast}
use anycable.Broker.Presence.{PresenceEvent, presence_remove}
use anycable.Hub.Gate.{HubSession}
use anycable.Node.Subscriptions.{
  SubscriptionState, has_channel, remove_channel, remove_channel_streams,
}
use anycable.Node.State.{Node, is_resumeable, commit_session}
use anycable.Node.Presence.{announce, leave}
use anycable.Node.Replies.{
  CommandResult, success, stop_all, stop_reply, release_all, handle_call_reply, start_reply,
  channel_reply, broadcast_all, transmit,
}
use anycable.Node.Commands.{Answer, Message, DisconnectMode, result}
use anycable.Node.Requests.{
  unsubscribe, finish_unsubscribe, leave_presence, is_dirty, drop_channel, handle_command_reply,
}

remove_channel-streams :
    (st : SubscriptionState) (id : String)
    → remove_channel_streams (remove_channel st id) id ≡ (remove_channel st id, [])
unfolding remove_channel_streams remove_channel
remove_channel-streams st id = ground (arith, lookup-delete id id st, string_eq.beq_iff id id)

-- The controller's plain answer: done, and nothing else.
abbrev pub plain_result : {Info : Type 0} → CommandResult Info
plain_result = record {
  stop_all_streams = false;
  disconnect = false;
  streams = none;
  stopped_streams = none;
  transmissions = [];
  broadcasts = [];
  connection_state = none;
  channel_state = none;
  presence = none;
  disconnect_interest = false;
  status = success;
}

abbrev pub consent : {Info : Type 0} → Answer Info
consent = record { result = some plain_result; failed = false; closed_meanwhile = false }

module _ {S Info : Type 0} ⦃e : Eq S⦄ ⦃i : HubSession S⦄ where
  -- Once the channel is gone, there is no stream left to release.
  stop_all-drop_channel :
      (n : Node S Info) (id : String)
      → ((stop_all (drop_channel n id) id).tracked ≡ n.tracked)
        × ((stop_all (drop_channel n id) id).session ≡ (drop_channel n id).session)
  unfolding stop_all drop_channel release_all
  stop_all-drop_channel n id =
      rw (remove_channel-streams n.session.subscriptions id, stop_all) (refl, refl)

  nothing_removed :
      (n : Node S Info) (id : String)
      → is_empty (remove_channel_streams (drop_channel n id).session.subscriptions id).1 ≡ true
  unfolding drop_channel
  nothing_removed n id = rw (remove_channel-streams n.session.subscriptions id) refl

  dropped :
      (n : Node S Info) (id : String)
      → has_channel (drop_channel n id).session.subscriptions id ≡ false
  unfolding drop_channel has_channel remove_channel
  dropped n id =
      ground (arith, lookup-delete id id n.session.subscriptions, string_eq.beq_iff id id)

  -- What a step leaves alone.
  abbrev Alike : Node S Info → Node S Info → Type 0
  Alike n n' = (n'.tracked ≡ n.tracked) × (n'.session.subscriptions ≡ n.session.subscriptions)

  commit_session-Alike : (n : Node S Info) → Alike n (commit_session n)
  unfolding commit_session
  commit_session-Alike n = elim (Bool-cases (is_resumeable n.session)) [
    | inl r ↦ rw (r, commit_session) (refl, refl)
    | inr r ↦ rw (r, commit_session) (refl, refl)
  ]

  module _ (to_json : PresenceEvent (Option Info) → String) (mode : DisconnectMode)
      (now now_ms : ℕ) where
    announce-Alike :
        (n : Node S Info) (stream : String)
        (answer : Outcome (Option (PresenceEvent (Option Info))))
        → (n' : Node S Info) × (announce to_json now n stream answer ≡ ok n') × Alike n n'
    unfolding announce handle_broadcast
    announce-Alike n stream (ok (some ev)) = (_, refl, (refl, refl))
    announce-Alike n stream (ok none) = (n, refl, (refl, refl))
    announce-Alike n stream (err b) = (n, refl, (refl, refl))
    announce-Alike n stream panic = (n, refl, (refl, refl))

    leave_presence-Alike :
        (n : Node S Info) (stream : String)
        → (n' : Node S Info) × (leave_presence to_json mode now now_ms n stream ≡ ok n')
          × Alike n n'
    unfolding leave_presence leave
    leave_presence-Alike n stream =
        let removal = presence_remove n.presence stream (i.get_id n.session.handle) in
        let (n', e, alike) = announce-Alike (record n { presence = removal.0 }) stream removal.1 in
        elim (Bool-cases (stream == "")) [
          | inl b ↦ (n, rw b refl, (refl, refl))
          | inr b ↦ (n', rw (b, e) refl, alike)
        ]

    plain_reply :
        (n : Node S Info) (id : String)
        → handle_command_reply to_json mode now now_ms
            (drop_channel n id)
            id
            (record plain_result { stop_all_streams = true })
          ≡ ok (stop_all (drop_channel n id) id, false)
    unfolding handle_command_reply stop_reply start_reply channel_reply is_dirty handle_call_reply
        broadcast_all transmit
    plain_reply n id = rw (nothing_removed n id) refl

    unsubscribe_goes :
        (n : Node S Info) (msg : Message Info)
        → has_channel n.session.subscriptions msg.identifier ≡ true
        → n.session.closed ≡ false
        → unsubscribe to_json mode now now_ms n msg consent
          ≡ finish_unsubscribe to_json mode now now_ms n msg consent
    unfolding unsubscribe
    unsubscribe_goes n msg h here = ground (arith, h, here)

    finish_known :
        (n n' : Node S Info) (msg : Message Info)
        → leave_presence to_json mode now now_ms
            (commit_session (stop_all (drop_channel n msg.identifier) msg.identifier))
            (get_channel_state_field n.session.env msg.identifier "$p")
          ≡ ok n'
        → finish_unsubscribe to_json mode now now_ms n msg consent
          ≡ ok (n', result (record plain_result { stop_all_streams = true }))
    unfolding finish_unsubscribe
    finish_known n n' msg e = rw (plain_reply n msg.identifier) rw e refl

    -- A client that unsubscribes from a channel, with the plain consent of the controller, has the
    -- channel no more, yet the reference counts of the broker are exactly what they were.
    pub unsubscribe_leaks :
        (n : Node S Info) (msg : Message Info)
        → has_channel n.session.subscriptions msg.identifier ≡ true
        → n.session.closed ≡ false
        → (n' : Node S Info) × (unsubscribe to_json mode now now_ms n msg consent
            ≡ ok (n', result (record plain_result { stop_all_streams = true })))
          × (has_channel n'.session.subscriptions msg.identifier ≡ false)
          × (n'.tracked ≡ n.tracked)
    unsubscribe_leaks n msg h here =
        let id = msg.identifier in
        let stopped = stop_all (drop_channel n id) id in
        let (told, kept) = stop_all-drop_channel n id in
        let stream = get_channel_state_field n.session.env id "$p" in
        let (n', e, (t, subs)) = leave_presence-Alike (commit_session stopped) stream in
        let (t', subs') = commit_session-Alike stopped in
        (
          n',
          unsubscribe_goes n msg h here ∙ finish_known n n' msg e,
          ap (λ st. has_channel st id) (subs ∙ (subs' ∙ ap (λ s. s.subscriptions) kept))
              ∙ dropped n id,
          t ∙ (t' ∙ told),
        )
