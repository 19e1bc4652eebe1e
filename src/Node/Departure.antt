-- ===== src/Node/Departure.antt =====
-- A client that goes: `Disconnect`, `unsubscribeSessionStreams` and `DisconnectNow` of node/node.go,
-- and `Disconnect`, `close` and `disconnectFromNode` of node/session.go. `TouchSession`, which only
-- moves a deadline of the cache, is left out.
use anycable.Prelude.{
  ℕ, true, false, not, List, [], ◌∷◌, ◌++◌, String, string_eq, if◌then◌else◌, Eq,
}
use anycable.Prelude.Dict.{Dict}
use anycable.Broker.Presence.{touch_presence}
use anycable.Hub.{remove_session}
use anycable.Hub.Gate.{HubSession}
use anycable.Node.Subscriptions.{to_map}
use anycable.Node.State.{Node, close, send, enqueue, disconnect_now}
use anycable.Node.Replies.{release_all}

-- The streams of every channel, one after the other.
unfoldable pub all_streams : Dict String (List String) → List String
all_streams [] = []
all_streams ((id, streams) ∷ channels) = streams ++ all_streams channels

module _ {S Info : Type 0} ⦃e : Eq S⦄ ⦃i : HubSession S⦄ where
  unfoldable pub unsubscribe_session_streams : Node S Info → Node S Info
  unfolding all_streams
  unsubscribe_session_streams n = release_all n (all_streams (to_map n.session.subscriptions))

  unfoldable pub disconnect : ℕ → Node S Info → Node S Info
  unfolding unsubscribe_session_streams
  disconnect now_ms n =
      let s = n.session in
      let released = unsubscribe_session_streams n in
      let gone : Node S Info = record released {
        presence = touch_presence now_ms n.presence_ttl released.presence (i.get_id s.handle);
        hub = remove_session released.hub s.handle;
      } in
      if s.inactive
      then n
      else if not s.disconnect_interest
      then gone
      else if n.shutting_down
      then disconnect_now gone
      else record gone { disconnector = enqueue gone.disconnector s.handle }

  unfoldable pub close_session : Node S Info → Node S Info
  close_session n = record n { session = record n.session { closed = true } }

  unfoldable pub disconnect_from_node : ℕ → Node S Info → Node S Info
  unfolding disconnect
  disconnect_from_node now_ms n =
      let off : Node S Info = record n { session = record n.session { connected = false } } in
      if n.session.connected then disconnect now_ms off else off

  -- `Session.Disconnect`
  unfoldable pub disconnect_session : ℕ → Node S Info → String → Node S Info
  unfolding disconnect_from_node close_session
  disconnect_session now_ms n reason =
      disconnect_from_node now_ms (close_session (send n (close reason)))
