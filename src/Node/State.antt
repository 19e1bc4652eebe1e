-- ===== src/Node/State.antt =====
-- What a command of one client works on: its session (node/session.go, the fields that commands
-- read and write), the hub, the in-memory broker in its parts, the disconnector's queue
-- (node/disconnect_queue.go), and what the controller and the client have been sent. `S` is the
-- session's identity for the hub; its id and identifiers come with the `HubSession` instance.
-- `outbox` is what `Send` and its kin are given, before it is encoded and queued. An entry of `cache`
-- stays; the broker's expiration of it is left out.
use anycable.Prelude.{
  ℕ, zero, suc, Bool, false, ◌||◌, not, Option, List, [], ◌∷◌, ◌++◌, String, string_eq,
  if◌then◌else◌,
}
use anycable.Prelude.Dict.{Dict, insert}
use anycable.Common.{StreamMessage}
use anycable.Common.Env.{SessionEnv}
use anycable.Broker.Tracker.{Tracked}
use anycable.Broker.Presence.{PresenceState, PresenceInfo}
use anycable.Broker.Memory.{Memory}
use anycable.Hub.{Hub}
use anycable.Hub.Gate.{HubSession}
use anycable.Node.Subscriptions.{SubscriptionState, to_map}
use anycable.Node.CacheEntry.{CacheEntry, JsonObject, marshal}

-- What is sent to a client: a stream message from history for an identifier, a transmission of the
-- controller, the answer to a history or presence request, the welcome of a restored session (its id
-- and its channels), or a close frame.
pub data Outgoing (Info : Type 0) : Type 0 where
  backlog : StreamMessage → String → Outgoing Info
  transmission : String → Outgoing Info
  history_confirmed history_rejected : String → Outgoing Info
  presence : String → PresenceInfo (Option Info) → Outgoing Info
  welcome : String → List String → Outgoing Info
  close : String → Outgoing Info

pub record Session (S Info : Type 0) : Type 0 where
  pub handle : S
  pub connected : Bool
  pub closed : Bool
  pub inactive : Bool
  pub resume_interval : ℕ
  pub disconnect_interest : Bool
  pub subscriptions : SubscriptionState
  pub env : SessionEnv
  pub outbox : List (Outgoing Info)

pub record DisconnectQueue (S : Type 0) : Type 0 where
  pub disconnect : List S
  pub is_stopped : Bool

pub record Node (S Info : Type 0) : Type 0 where
  pub session : Session S Info
  pub hub : Hub S
  pub tracked : Tracked
  pub memory : Memory
  pub presence : PresenceState (Option Info)
  pub presence_ttl : ℕ
  pub cache : Dict String JsonObject
  pub disconnector : DisconnectQueue S
  -- The sessions that the controller was told of.
  pub disconnected : List S
  pub shutting_down : Bool

unfoldable pub enqueue : {S : Type 0} → DisconnectQueue S → S → DisconnectQueue S
enqueue d s = if d.is_stopped then d else record d { disconnect = d.disconnect ++ s ∷ [] }

module _ {S Info : Type 0} where
  unfoldable pub is_resumeable : Session S Info → Bool
  is_resumeable s = elim s.resume_interval [ zero ↦ false | suc n ↦ not s.inactive ]

  unfoldable pub mark_disconnectable : Session S Info → Bool → Session S Info
  mark_disconnectable s val = record s { disconnect_interest = s.disconnect_interest || val }

  unfoldable pub send : Node S Info → Outgoing Info → Node S Info
  send n m = record n { session = record n.session { outbox = n.session.outbox ++ m ∷ [] } }

  unfoldable pub disconnect_now : Node S Info → Node S Info
  disconnect_now n = record n { disconnected = n.disconnected ++ n.session.handle ∷ [] }

  unfoldable pub to_cache_entry : Session S Info → CacheEntry
  to_cache_entry s = record {
    identifiers = s.env.identifiers;
    subscriptions = to_map s.subscriptions;
    connection_state = s.env.connection_state;
    channel_states = s.env.channel_states;
    disconnectable = s.disconnect_interest;
  }

  -- The bytes that `ToCacheEntry` gives.
  unfoldable pub cached : Session S Info → JsonObject
  unfolding to_cache_entry marshal
  cached s = marshal (to_cache_entry s)

module _ {S Info : Type 0} ⦃i : HubSession S⦄ where
  -- `CommitSession`, for a session that can be resumed, as every command ends with it.
  unfoldable pub commit_session : Node S Info → Node S Info
  unfolding cached is_resumeable
  commit_session n =
      if is_resumeable n.session
      then record n { cache = insert (i.get_id n.session.handle) (cached n.session) n.cache }
      else n
