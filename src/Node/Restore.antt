-- ===== src/Node/Restore.antt =====
-- A client that comes back: `RestoreFromCache` of node/session.go and `TryRestoreSession` of
-- node/node.go. The session's identity for the hub changes with its identifiers: `identify` is the
-- same session after SetIdentifiers. The cache holds
-- JSON objects (Node/CacheEntry).
pub mod RoundTrip
pub mod Resubscribed
use anycable.Prelude.{
  ℕ, Bool, true, false, ◌||◌, Option, none, some, List, [], ◌∷◌, ◌++◌, String, string_eq, ◌==◌,
  if◌then◌else◌, Eq,
}
use anycable.Prelude.Dict.{Dict, lookup}
use anycable.Common.Env.{SessionEnv, merge_connection_state, merge_channel_state}
use anycable.Broker.Tracker
use anycable.Hub.{add_session, subscribe_session}
use anycable.Hub.Gate.{HubSession}
use anycable.Node.Subscriptions.{
  SubscriptionState, add_channel, add_channel_stream, to_map, channels,
}
use anycable.Node.CacheEntry.{CacheEntry, JsonObject, unmarshal}
use anycable.Node.State.{Node, Session, welcome, send, mark_disconnectable, commit_session}

-- The loops over the entry's subscriptions.
unfoldable pub restore_streams : SubscriptionState → String → List String → SubscriptionState
restore_streams st id [] = st
restore_streams st id (stream ∷ streams) =
    restore_streams (add_channel_stream st id stream) id streams

unfoldable pub restore_channels : SubscriptionState → Dict String (List String) → SubscriptionState
unfolding restore_streams
restore_channels st [] = st
restore_channels st ((id, streams) ∷ rest) =
    restore_channels (restore_streams (add_channel st id) id streams) rest

-- The loop over the entry's channel states.
unfoldable pub restore_states : SessionEnv → Dict String (Dict String String) → SessionEnv
restore_states env [] = env
restore_states env ((id, st) ∷ rest) = restore_states (merge_channel_state env id st) rest

module _ {S Info : Type 0} (identify : S → String → S) where
  -- What follows a decoded entry.
  unfoldable pub restore_entry : Session S Info → CacheEntry → Session S Info
  unfolding restore_channels restore_states mark_disconnectable
  restore_entry s entry =
      let marked = mark_disconnectable s entry.disconnectable in
      let named : SessionEnv = record s.env { identifiers = entry.identifiers } in
      record marked {
        handle = identify s.handle entry.identifiers;
        env =
            restore_states (merge_connection_state named entry.connection_state)
              entry.channel_states;
        subscriptions = restore_channels s.subscriptions entry.subscriptions;
      }

  -- `none` is the error of decoding, which leaves the session as it was.
  unfoldable pub restore_from_cache : Session S Info → JsonObject → Option (Session S Info)
  unfolding restore_entry
  restore_from_cache s cached = elim (unmarshal cached) [
    | none ↦ none
    | some entry ↦ some (restore_entry s entry)
  ]

module _ {S Info : Type 0} ⦃e : Eq S⦄ ⦃i : HubSession S⦄ where
  -- The loop over the streams of one channel, and over the channels.
  unfoldable pub resubscribe_streams : Node S Info → String → List String → Node S Info
  resubscribe_streams n identifier [] = n
  resubscribe_streams n identifier (stream ∷ streams) =
      resubscribe_streams
        (record n {
          tracked = Tracker.subscribe n.tracked stream;
          hub = subscribe_session n.hub n.session.handle stream identifier;
        })
        identifier streams

  unfoldable pub resubscribe : Node S Info → Dict String (List String) → Node S Info
  unfolding resubscribe_streams
  resubscribe n [] = n
  resubscribe n ((identifier, streams) ∷ rest) =
      resubscribe (resubscribe_streams n identifier streams) rest

  -- What follows a session that was restored from what was found.
  unfoldable pub resume : Node S Info → Session S Info → Node S Info
  unfolding resubscribe
  resume n restored =
      let s : Session S Info = record restored { connected = true } in
      let added : Node S Info = record n { session = s; hub = add_session n.hub s.handle } in
      let listening = resubscribe added (to_map s.subscriptions) in
      commit_session (send listening (welcome (i.get_id s.handle) (channels s.subscriptions)))

  -- What the cache has is restored, unless the session was closed meanwhile or it cannot be decoded.
  abbrev pub restore_found : (S → String → S) → Node S Info → Option JsonObject → Node S Info × Bool
  restore_found identify n none = (n, false)
  restore_found identify n (some cached) =
      if n.session.closed then (n, false) else elim (restore_from_cache identify n.session cached) [
        | none ↦ (n, false)
        | some restored ↦ (resume n restored, true)
      ]

  -- `prev_sid` is what the client says its session was. Whether it was restored comes with the node.
  unfoldable pub try_restore_session : (S → String → S) → Node S Info → String → Node S Info × Bool
  unfolding resume restore_from_cache
  try_restore_session identify n prev_sid =
      if prev_sid == "" then (n, false) else restore_found identify n (lookup prev_sid n.cache)
