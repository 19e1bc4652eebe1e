-- ===== src/Hub.antt =====
-- hub/hub.go: which sessions are connected to this node, and which streams they listen to. Each
-- method is one step, though the code takes its lock twice in `RemoveSession`; the channels' events
-- are handled one at a time by `Run`, here `handle`. With no gate the code panics in `index`; the
-- lemmas ask for at least one. `info.session` of a registered session is the one registered last.
pub mod Gate
pub mod Index
pub mod Listening
pub mod Registry
pub mod Removal
pub mod Reach
use anycable.Prelude.{
  ℕ, ◌+◌, Bool, true, false, ◌&&◌, Option, none, some, List, [], ◌∷◌, ◌++◌, String, if◌then◌else◌,
  string_eq, ◌==◌, Eq, length, get_or, set, replicate, map,
}
use anycable.Prelude.Dict.{Dict, lookup, insert, delete, has, is_empty}
use anycable.Common.{StreamMessage}
use Gate.{HubSession, new_gate, or_empty}
use Index.{index}

pub record HubSessionInfo (S : Type 0) : Type 0 where
  pub session : S
  -- Pairs of a stream and an identifier.
  pub streams : List (String × String)

pub record Hub (S : Type 0) : Type 0 where
  pub gates : List (Gate.Gate S)
  pub gates_num : ℕ
  pub sessions : Dict String (HubSessionInfo S)
  pub identifiers : Dict String (Dict String Bool)

abbrev pub new_hub_session_info : {S : Type 0} → S → HubSessionInfo S
new_hub_session_info session = record { session = session; streams = [] }

unfoldable pub new_hub : {S : Type 0} → ℕ → Hub S
new_hub pool_size = record {
  gates = replicate pool_size new_gate;
  gates_num = pool_size;
  sessions = [];
  identifiers = [];
}

abbrev pub add_stream : {S : Type 0} → HubSessionInfo S → String → String → HubSessionInfo S
add_stream hs stream identifier = record hs { streams = hs.streams ++ (stream, identifier) ∷ [] }

-- The first occurrence of the pair goes.
pub remove_pair : String → String → List (String × String) → List (String × String)
remove_pair stream identifier [] = []
remove_pair stream identifier ((s, i) ∷ rest) =
    if s == stream && i == identifier then rest else (s, i) ∷ remove_pair stream identifier rest

pub remove_stream : {S : Type 0} → HubSessionInfo S → String → String → HubSessionInfo S
unfolding remove_pair
remove_stream hs stream identifier = record hs {
  streams = remove_pair stream identifier hs.streams;
}

-- The pairs with the identifier, in order.
pub streams_to_remove : String → List (String × String) → List (String × String)
streams_to_remove target [] = []
streams_to_remove target ((stream, identifier) ∷ rest) =
    let others = streams_to_remove target rest in
    if target == identifier then (stream, identifier) ∷ others else others

module _ {S : Type 0} where
  -- The gate of a stream, and the hub with that gate changed.
  abbrev pub gate_of : Hub S → String → Gate.Gate S
  gate_of h stream = get_or h.gates (index stream h.gates_num) new_gate

  abbrev pub with_gate : Hub S → String → (Gate.Gate S → Gate.Gate S) → Hub S
  with_gate h stream f = record h {
    gates = set h.gates (index stream h.gates_num) (f (gate_of h stream));
  }

  unfoldable pub size : Hub S → ℕ
  size h = length h.sessions

  unfoldable pub uniq_size : Hub S → ℕ
  uniq_size h = length h.identifiers

  unfoldable pub sessions : Hub S → List S
  sessions h = map (λ p. p.1.session) h.sessions

  -- The first of the ids that has a session.
  pub first_session : Dict String Bool → Hub S → Option S
  first_session [] h = none
  first_session ((id, _) ∷ ids) h = elim (lookup id h.sessions) [
    | some info ↦ some info.session
    | none ↦ first_session ids h
  ]

  unfoldable pub find_by_identifier : Hub S → String → Option S
  unfolding first_session
  find_by_identifier h id = elim (lookup id h.identifiers) [
    | none ↦ none
    | some ids ↦ first_session ids h
  ]

module _ {S : Type 0} ⦃e : Eq S⦄ ⦃i : HubSession S⦄ where
  unfoldable pub add_session : Hub S → S → Hub S
  add_session h session =
      let uid = i.get_id session in
      let identifiers = i.get_identifiers session in
      let uids = or_empty (lookup identifiers h.identifiers) in
      record h {
        sessions = insert uid (new_hub_session_info session) h.sessions;
        identifiers = insert identifiers (insert uid true uids) h.identifiers;
      }

  -- The loop over the session's streams.
  unfoldable pub unsubscribe_all : Hub S → S → List (String × String) → Hub S
  unsubscribe_all h session [] = h
  unsubscribe_all h session ((stream, identifier) ∷ streams) =
      unsubscribe_all (with_gate h stream (λ g. Gate.unsubscribe g session stream identifier))
        session streams

  pub unsubscribe_session_from_all_channels : Hub S → S → Hub S
  unfolding unsubscribe_all
  unsubscribe_session_from_all_channels h session = elim (lookup (i.get_id session) h.sessions) [
    | none ↦ h
    | some info ↦ unsubscribe_all h session info.streams
  ]

  pub remove_session : Hub S → S → Hub S
  unfolding unsubscribe_session_from_all_channels
  remove_session h session =
      let uid = i.get_id session in
      let identifiers = i.get_identifiers session in
      let cleared = unsubscribe_session_from_all_channels h session in
      let uids = delete uid (or_empty (lookup identifiers h.identifiers)) in
      if has uid h.sessions
      then record cleared {
        sessions = delete uid cleared.sessions;
        identifiers =
            if is_empty uids
            then delete identifiers h.identifiers
            else insert identifiers uids h.identifiers;
      }
      else h

  unfoldable pub subscribe_session : Hub S → S → String → String → Hub S
  subscribe_session h session stream identifier =
      let sid = i.get_id session in
      let subscribed = with_gate h stream (λ g. Gate.subscribe g session stream identifier) in
      let info : HubSessionInfo S = elim (lookup sid h.sessions) [
        | none ↦ new_hub_session_info session
        | some info ↦ info
      ] in
      record subscribed { sessions = insert sid (add_stream info stream identifier) h.sessions }

  pub unsubscribe_session : Hub S → S → String → String → Hub S
  unfolding remove_stream
  unsubscribe_session h session stream identifier =
      let sid = i.get_id session in
      let left = with_gate h stream (λ g. Gate.unsubscribe g session stream identifier) in
      elim (lookup sid h.sessions) [
        | none ↦ left
        | some info ↦ record left {
          sessions = insert sid (remove_stream info stream identifier) h.sessions;
        }
      ]

  -- The loop over `streamsToRemove`, each pair off its gate and off the session's list.
  pub unsubscribe_each : Hub S → S → List (String × String) → Hub S
  unsubscribe_each h session [] = h
  unsubscribe_each h session ((stream, identifier) ∷ rest) =
      unsubscribe_each (unsubscribe_session h session stream identifier) session rest

  pub unsubscribe_session_from_channel : Hub S → S → String → Hub S
  unfolding unsubscribe_each streams_to_remove
  unsubscribe_session_from_channel h session target = elim (lookup (i.get_id session) h.sessions) [
    | none ↦ h
    | some info ↦ unsubscribe_each h session (streams_to_remove target info.streams)
  ]

  unfoldable pub broadcast_to_stream : Hub S → StreamMessage → Hub S
  broadcast_to_stream h msg = with_gate h msg.stream (λ g. Gate.broadcast g msg)

pub record DisconnectMessage : Type 0 where
  pub reason : String
  pub reconnect : Bool

pub data HubEvent (S : Type 0) : Type 0 where
  adds removes : S → HubEvent S
  broadcasts : StreamMessage → HubEvent S
  disconnects : String → Bool → HubEvent S

-- The session that is disconnected with the message, if any.
pub disconnect_sessions : {S : Type 0} → Hub S → String → Bool → Option (S × DisconnectMessage)
disconnect_sessions h identifier reconnect = elim (find_by_identifier h identifier) [
  | none ↦ none
  | some session ↦ some (session, record { reason = "remote"; reconnect = reconnect })
]

-- One turn of the loop of `Run`.
unfoldable pub handle :
    {S : Type 0} ⦃e : Eq S⦄ ⦃i : HubSession S⦄
    → Hub S
    → HubEvent S
    → Hub S × Option (S × DisconnectMessage)
unfolding disconnect_sessions
handle h (adds session) = (add_session h session, none)
handle h (removes session) = (remove_session h session, none)
handle h (broadcasts msg) = (broadcast_to_stream h msg, none)
handle h (disconnects identifier reconnect) = (h, disconnect_sessions h identifier reconnect)
