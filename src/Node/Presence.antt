-- ===== src/Node/Presence.antt =====
-- node/node.go: presence events of replies and clients, and their announcement, which the broker
-- asks of the node as its presenter. `to_json` is `utils.ToJSON`. A session always has an environment.
use anycable.Prelude.{ℕ, Option, none, some, String, string_eq, ◌==◌, if◌then◌else◌}
use anycable.Common.Env.{get_channel_state_field}
use anycable.Broker.Outcome.{Outcome, ok, ◌>>=◌}
use anycable.Broker.Memory.{handle_broadcast}
use anycable.Broker.Presence.{PresenceEvent, presence_add, presence_remove}
use anycable.Hub.Gate.{HubSession}
use anycable.Node.State.{Node}
use anycable.Node.Replies.{
  NodeError, failure_of, presence_message, presence_stream_missing, presence_data_missing,
  unknown_presence_event,
}

module _ {S Info : Type 0} ⦃i : HubSession S⦄ (to_json : PresenceEvent (Option Info) → String) where
  -- The presenter's turn, after the broker has answered.
  unfoldable pub announce :
      ℕ
      → Node S Info
      → String
      → Outcome (Option (PresenceEvent (Option Info)))
      → Outcome (Node S Info)
  announce now n stream (ok (some ev)) = do
    memory ← handle_broadcast now n.memory (presence_message stream (to_json ev))
    ok (record n { memory = memory })
  announce now n stream _ = ok n

  pub join :
      ℕ
      → ℕ
      → Node S Info
      → String
      → Option (PresenceEvent Info)
      → Outcome (Node S Info × Option NodeError)
  unfolding announce
  join now now_ms n stream none = ok (n, some presence_data_missing)
  join now now_ms n stream (some p) = do
    let (st, answer) =
        presence_add now_ms n.presence_ttl n.presence stream (i.get_id n.session.handle) p.id p.info
    n' ← announce now (record n { presence = st }) stream answer
    ok (n', failure_of answer)

  unfoldable pub leave : ℕ → Node S Info → String → Outcome (Node S Info × Option NodeError)
  unfolding announce
  leave now n stream = do
    let (st, answer) = presence_remove n.presence stream (i.get_id n.session.handle)
    n' ← announce now (record n { presence = st }) stream answer
    ok (n', failure_of answer)

  unfoldable pub handle_presence_reply :
      ℕ
      → ℕ
      → Node S Info
      → String
      → String
      → Option (PresenceEvent Info)
      → Outcome (Node S Info × Option NodeError)
  unfolding join leave
  handle_presence_reply now now_ms n identifier event presence =
      let stream = get_channel_state_field n.session.env identifier "$p" in
      if stream == ""
      then ok (n, some presence_stream_missing)
      else if event == "join"
      then join now now_ms n stream presence
      else if event == "leave"
      then leave now n stream
      else ok (n, some unknown_presence_event)
