-- ===== src/Node/Commands.antt =====
-- node/node.go: the commands of a client. The controller's answer is an argument: its result, whether
-- it also reports an error, and whether the session was closed meanwhile.
use anycable.Prelude.{
  ℕ, ltb, Bool, true, false, ◌||◌, not, Option, none, some, List, [], ◌∷◌, ◌++◌, String, string_eq,
  if◌then◌else◌, is_some,
}
use anycable.Prelude.Dict.{Dict, lookup}
use anycable.Common.{StreamMessage}
use anycable.Broker.Outcome.{Outcome, ok, err, panic, ◌>>=◌}
use anycable.Broker.Memory.{Memory, history_from, history_since}
use anycable.Broker.Presence.{PresenceEvent}
use anycable.Node.Subscriptions.{has_channel, streams_for}
use anycable.Node.State.{
  Node, backlog, history_confirmed, history_rejected, send, mark_disconnectable,
}
use anycable.Node.Replies.{
  CommandResult, Status, error, NodeError, unknown_subscription, history_missing, history_failed,
}

pub record Answer (Info : Type 0) : Type 0 where
  pub result : Option (CommandResult Info)
  pub failed : Bool
  pub closed_meanwhile : Bool

pub record HistoryPosition : Type 0 where
  pub epoch : String
  pub offset : ℕ

-- `streams` is `none` for Go's nil, and `since` is not negative.
pub record HistoryRequest : Type 0 where
  pub since : ℕ
  pub streams : Option (Dict String HistoryPosition)

pub record Message (Info : Type 0) : Type 0 where
  pub identifier : String
  -- `none` when the data is not a string
  pub payload : Option String
  pub history : HistoryRequest
  pub presence : Option (PresenceEvent Info)

-- What the caller of a command gets: nothing, the controller's result, or an error.
pub data Reaction (Info : Type 0) : Type 0 where
  nothing : Reaction Info
  result : CommandResult Info → Reaction Info
  refused : NodeError → Reaction Info

-- The three modes of the configuration; the code does nothing on any other text.
pub data DisconnectMode : Type 0 where
  always never auto : DisconnectMode

abbrev pub is_error : Status → Bool
is_error error = true
is_error _ = false

-- An error that ends the command: no result, or one that says so.
abbrev pub fatal : Option Status → Bool
fatal none = true
fatal (some status) = is_error status

pub asks_history : HistoryRequest → Bool
asks_history h = ltb 0 h.since || is_some h.streams

-- `retreiveHistory`
unfoldable pub retrieve_history :
    Memory → HistoryRequest → List String → Outcome (List StreamMessage)
retrieve_history b history [] = ok []
retrieve_history b history (stream ∷ streams) = do
  let position : Option HistoryPosition = elim history.streams [
    | none ↦ none
    | some positions ↦ lookup stream positions
  ]
  messages ← (elim position [
    | some pos ↦ history_from b stream pos.epoch pos.offset
    | none ↦ ok (if ltb 0 history.since then history_since b stream history.since else [])
  ])
  rest ← retrieve_history b history streams
  ok (messages ++ rest)

module _ {S Info : Type 0} where
  unfoldable pub mark_interest : DisconnectMode → Node S Info → Bool → Node S Info
  mark_interest always n interest = record n { session = mark_disconnectable n.session true }
  mark_interest never n interest = record n { session = mark_disconnectable n.session false }
  mark_interest auto n interest = record n { session = mark_disconnectable n.session interest }

  pub send_backlog : Node S Info → String → List StreamMessage → Node S Info
  send_backlog n identifier [] = n
  send_backlog n identifier (m ∷ ms) = send_backlog (send n (backlog m identifier)) identifier ms

  -- `History`
  unfoldable pub history_command :
      Node S Info → Message Info → Outcome (Node S Info × Option NodeError)
  unfolding asks_history send_backlog
  history_command n msg =
      if not (has_channel n.session.subscriptions msg.identifier)
      then ok (n, some unknown_subscription)
      else if not (asks_history msg.history)
      then ok (n, some history_missing)
      else (elim (retrieve_history n.memory msg.history
          (streams_for n.session.subscriptions msg.identifier)) [
            | ok messages ↦
                if n.session.closed
                then ok (n, none)
                else ok (
                  send (send_backlog n msg.identifier messages) (history_confirmed msg.identifier),
                  none,
                )
            | err e ↦
                if n.session.closed
                then ok (n, none)
                else ok (send n (history_rejected msg.identifier), some history_failed)
            | panic ↦ panic
          ])
