-- ===== src/Hub/Gate.antt =====
-- hub/gate.go: one shard of the subscriptions, and the delivery of a message to its stream.
-- Sessions are compared by identity, which is the `Eq` instance. A method is one step, under the
-- gate's lock. `sender` is the buffered channel; a full one only delays the sender. The field
-- `sessionsStreams` is made and never used. Go's maps have no order: this model goes through one
-- in the order of its entries.
pub mod Subscriptions
pub mod Shape
pub mod Delivery
use anycable.Prelude.{
  ℕ, Bool, true, false, ◌&&◌, not, Option, none, some, List, [], ◌∷◌, ◌++◌, String, if◌then◌else◌,
  string_eq, ◌==◌, Eq, is_some, length, map,
}
use anycable.Prelude.Dict.{Dict, lookup, insert, delete, has, is_empty}
use anycable.Common.{StreamMessage, StreamMessageMetadata, Reply, to_reply_for}

-- What the hub asks of a session.
pub record HubSession (S : Type 0) : Type 0 where
  pub get_id : S → String
  pub get_identifiers : S → String

pub record Gate (S : Type 0) : Type 0 where
  pub streams : Dict String (Dict S (Dict String Bool))
  pub sender : List StreamMessage

pub record SessionStreamRow (S : Type 0) : Type 0 where
  pub session : S
  pub id : String

abbrev pub new_gate : {S : Type 0} → Gate S
new_gate = record { streams = []; sender = [] }

-- A missing map reads as an empty one.
abbrev pub or_empty : {A : Type 0} → Option (List A) → List A
or_empty none = []
or_empty (some m) = m

module _ {S : Type 0} ⦃e : Eq S⦄ where
  unfoldable pub subscribe : Gate S → S → String → String → Gate S
  subscribe g session stream identifier =
      let sessions = or_empty (lookup stream g.streams) in
      let ids = or_empty (lookup session sessions) in
      record g {
        streams = insert stream (insert session (insert identifier true ids) sessions) g.streams;
      }

  -- The maps after `delete(g.streams[stream][session], identifier)`, without empty ones.
  pub without : Gate S → Dict S (Dict String Bool) → Dict String Bool → S → String → String → Gate S
  without g sessions ids session stream identifier =
      let ids' = delete identifier ids in
      let sessions' = delete session sessions in
      if is_empty ids'
      then record g {
        streams =
            if is_empty sessions'
            then delete stream g.streams
            else insert stream sessions' g.streams;
      }
      else record g { streams = insert stream (insert session ids' sessions) g.streams }

  unfoldable pub unsubscribe : Gate S → S → String → String → Gate S
  unsubscribe g session stream identifier = elim (lookup stream g.streams) [
    | none ↦ g
    | some sessions ↦ elim (lookup session sessions) [
      | none ↦ g
      | some ids ↦
          if has identifier ids then without g sessions ids session stream identifier else g
    ]
  ]

  unfoldable pub size : Gate S → ℕ
  size g = length g.streams

  pub broadcast : Gate S → StreamMessage → Gate S
  broadcast g msg =
      if has msg.stream g.streams then record g { sender = g.sender ++ msg ∷ [] } else g

rows_of : {S : Type 0} → S → Dict String Bool → List (SessionStreamRow S)
rows_of session [] = []
rows_of session ((id, _) ∷ ids) = record { session = session; id = id } ∷ rows_of session ids

unfoldable pub create_stream_sessions_snapshot :
    {S : Type 0} → Dict S (Dict String Bool) → List (SessionStreamRow S)
unfolding rows_of
create_stream_sessions_snapshot [] = []
create_stream_sessions_snapshot ((session, ids) ∷ src) =
    rows_of session ids ++ create_stream_sessions_snapshot src

unfoldable pub build_message :
    {Json : Type 0} → (String → Option Json) → StreamMessage → String → Reply Json
build_message unmarshal msg identifier =
    let reply = to_reply_for unmarshal msg identifier in
    elim msg.meta [ none ↦ reply | some meta ↦ record reply { reply_type = meta.broadcast_type } ]

abbrev pub exclude_of : StreamMessage → String
exclude_of msg = elim msg.meta [ none ↦ "" | some meta ↦ meta.exclude_socket ]

module _ {S Json : Type 0} ⦃e : Eq S⦄ ⦃h : HubSession S⦄ (unmarshal : String → Option Json) where
  -- The loop of `performBroadcast`: the sends in order, with the buffer of built messages.
  unfoldable pub deliver :
      StreamMessage → Dict String (Reply Json) → List (SessionStreamRow S) → List (S × Reply Json)
  deliver msg buf [] = []
  deliver msg buf (row ∷ rows) =
      let exclude = exclude_of msg in
      let built : Reply Json = elim (lookup row.id buf) [
        | some m ↦ m
        | none ↦ build_message unmarshal msg row.id
      ] in
      let buf' : Dict String (Reply Json) = elim (lookup row.id buf) [
        | some m ↦ buf
        | none ↦ insert row.id built buf
      ] in
      let skip = not (exclude == "") && h.get_id row.session == exclude in
      let rest = deliver msg (if skip then buf else buf') rows in
      if skip then rest else (row.session, built) ∷ rest

  unfoldable pub perform_broadcast : Gate S → StreamMessage → List (S × Reply Json)
  perform_broadcast g msg =
      deliver msg [] (create_stream_sessions_snapshot (or_empty (lookup msg.stream g.streams)))
