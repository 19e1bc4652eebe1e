-- ===== src/Node/Auth.antt =====
-- node/node.go, `Authenticate` and `Authenticated`: a client is restored, or let in or rejected by the
-- controller, whose answer is an argument. So is whether the session, open before, was closed while
-- the controller was asked. Numbers of failed authentications go to the metrics and are left out.
pub mod Rejected
use anycable.Prelude.{
  ℕ, Bool, true, false, ◌&&◌, ◌||◌, not, Option, none, some, List, String, if◌then◌else◌, Eq,
}
use anycable.Prelude.Dict.{Dict}
use anycable.Common.{StreamMessage}
use anycable.Common.Env.{SessionEnv}
use anycable.Broker.Outcome.{Outcome, ok, ◌>>=◌}
use anycable.Hub.{add_session}
use anycable.Hub.Gate.{HubSession}
use anycable.Node.State.{Node, Session, is_resumeable, commit_session}
use anycable.Node.Replies.{Status, success, failure, error, CommandResult, handle_call_reply}
use anycable.Node.Departure.{disconnect_session}
use anycable.Node.Commands.{DisconnectMode, mark_interest}
use anycable.Node.Requests.{is_success}
use anycable.Node.Restore.{try_restore_session}

pub record ConnectResult : Type 0 where
  pub identifier : String
  pub transmissions : List String
  pub broadcasts : List StreamMessage
  pub connection_state : Option (Dict String String)
  pub disconnect_interest : Bool
  pub status : Status

-- The controller's answer: `none` is a nil result.
pub record ConnectAnswer : Type 0 where
  pub result : Option ConnectResult
  pub failed : Bool
  pub closed_meanwhile : Bool

-- What the caller gets.
pub data Authentication : Type 0 where
  nothing restored auth_error : Authentication
  answered : ConnectResult → Authentication

abbrev pub to_call_result : {Info : Type 0} → ConnectResult → CommandResult Info
to_call_result res = record {
  stop_all_streams = false;
  disconnect = false;
  streams = none;
  stopped_streams = none;
  transmissions = res.transmissions;
  broadcasts = res.broadcasts;
  connection_state = res.connection_state;
  channel_state = none;
  presence = none;
  disconnect_interest = res.disconnect_interest;
  status = res.status;
}

module _ {S Info : Type 0} ⦃e : Eq S⦄ ⦃i : HubSession S⦄ (identify : S → String → S) where
  unfoldable pub authenticated : Node S Info → String → Node S Info
  authenticated n ids =
      let s = n.session in
      let named : Session S Info = record s {
        handle = identify s.handle ids;
        env = record s.env { identifiers = ids };
        connected = true;
      } in
      let added : Node S Info = record n {
        session = named;
        hub = if s.inactive then n.hub else add_session n.hub named.handle;
      } in
      if s.closed then n else added

  module _ (mode : DisconnectMode) (now now_ms : ℕ) (disconnect_on_failure : Bool) where
    -- What follows an answer. The disconnection is deferred in the code.
    unfoldable pub admit : Node S Info → ConnectResult → Outcome (Node S Info)
    unfolding authenticated
    admit n res = do
      let let_in = if is_success res.status then authenticated n res.identifier else n
      called ← handle_call_reply now let_in (to_call_result res)
      let committed = commit_session (mark_interest mode called res.disconnect_interest)
      ok (
          if not (is_success res.status) && disconnect_on_failure
          then disconnect_session now_ms committed "Auth Failed"
          else committed)

    -- A session that is closed by the time of the answer gets none.
    unfoldable pub ask_controller :
        Node S Info → ConnectAnswer → Outcome (Node S Info × Authentication)
    unfolding admit
    ask_controller n answer =
        if n.session.closed || answer.closed_meanwhile
        then ok (n, nothing)
        else if answer.failed
        then ok (disconnect_session now_ms n "Auth Error", auth_error)
        else elim answer.result [
          | none ↦ ok (n, nothing)
          | some res ↦ (do n' ← admit n res; ok (n', answered res))
        ]

    -- What follows the attempt to restore, for a session that can be resumed or not.
    abbrev pub after_restoring :
        Bool → ConnectAnswer → Node S Info × Bool → Outcome (Node S Info × Authentication)
    after_restoring resumeable answer tried =
        if tried.1
        then ok (tried.0, restored)
        else if resumeable && tried.0.session.closed
        then ok (tried.0, nothing)
        else ask_controller tried.0 answer

    -- `prev_sid` is what the client says its session was.
    unfoldable pub authenticate :
        Node S Info → String → ConnectAnswer → Outcome (Node S Info × Authentication)
    unfolding ask_controller
    authenticate n prev_sid answer =
        after_restoring (is_resumeable n.session) answer
          (if is_resumeable n.session then try_restore_session identify n prev_sid else (n, false))
