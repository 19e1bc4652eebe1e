-- ===== src/Tests/HubRuns.antt =====
-- The hub and its gates, over sessions that are their own ids; and the session's environment.
use anycable.Prelude.{
  ℕ, ◌≡◌, refl, Option, some, none, [], ◌∷◌, true, ◌&&◌, not, arith, String, string_eq,
  if◌then◌else◌, ◌==◌,
}
use anycable.Prelude.Dict.{Dict, lookup, insert}
use anycable.Common.{StreamMessage, Reply, text, to_reply_for}
use anycable.Hub.Gate
use anycable.Hub.Gate.{
  Gate, HubSession, new_gate, or_empty, perform_broadcast, build_message,
  create_stream_sessions_snapshot, deliver, broadcast, exclude_of,
}
use anycable.Hub.Gate.Subscriptions.{subscribed}
use anycable.Hub.Gate.Shape.{IsProper, new_gate-IsProper, subscribe-IsProper}
use anycable.Hub.Gate.Delivery.{AllReplies, sends, excluded, perform_broadcast_once}
use anycable.Hub.{Hub, new_hub, add_session, subscribe_session, remove_session}
use anycable.Hub.Listening.{listens}
use anycable.Hub.Registry.{IsRecorded}
use anycable.Hub.Removal.{remove_session_clean}
use anycable.Hub.Reach.{Reach, here, next, adds, subscribes, Reach-IsRecorded}

instance abbrev named : HubSession String
named = record { get_id = λ s. s; get_identifiers = λ s. "user" }

abbrev no_json : String → Option ℕ
no_json payload = none

-- "a" listens twice, "b" once.
abbrev busy : Gate String
busy =
    Gate.subscribe (Gate.subscribe (Gate.subscribe new_gate "a" "s" "chat") "a" "s" "feed") "b" "s"
      "chat"

busy-IsProper : IsProper busy
busy-IsProper =
    subscribe-IsProper _ "b" "s" "chat"
      (subscribe-IsProper _ "a" "s" "feed" (subscribe-IsProper _ "a" "s" "chat" new_gate-IsProper))

-- A message that leaves "b" out.
abbrev whisper : StreamMessage
whisper = record {
  stream = "s";
  payload = "hi";
  meta = some (record { exclude_socket = "b"; broadcast_type = "whisper"; transient = true });
  offset = 0;
  epoch = "";
}

abbrev whispered : String → Reply ℕ
whispered id = record {
  reply_type = "whisper";
  identifier = id;
  message = text "hi";
  stream_id = "";
  epoch = "";
  offset = 0;
}

delivered :
    perform_broadcast no_json busy whisper ≡ ("a", whispered "chat") ∷ ("a", whispered "feed") ∷ []
unfolding Gate.subscribe perform_broadcast create_stream_sessions_snapshot deliver build_message
    to_reply_for lookup insert
delivered = refl

perform_broadcast_once_example :
    (sends no_json whisper "a" "feed" (perform_broadcast no_json busy whisper) ≡ (
      if excluded {S = String} no_json whisper "a"
      then 0
      else if subscribed busy "s" "a" "feed"
      then 1
      else 0))
    × AllReplies no_json whisper (perform_broadcast no_json busy whisper)
perform_broadcast_once_example =
    perform_broadcast_once no_json whisper busy "a" "feed" busy-IsProper

abbrev crowd : Hub String
crowd =
    subscribe_session (subscribe_session (add_session (new_hub 2) "a") "a" "s" "chat") "a" "t"
      "chat"

crowd-Reach : Reach (new_hub {S = String} 2) crowd
unfolding new_hub lookup
crowd-Reach =
    next (next (next here (adds "a" refl)) (subscribes "a" "s" "chat")) (subscribes "a" "t" "chat")

Reach-IsRecorded_example : IsRecorded crowd
Reach-IsRecorded_example = Reach-IsRecorded (λ a b e. e) 2 (omega arith) crowd-Reach

remove_session_clean_example :
    (listens (remove_session crowd "a") "s" "a" "chat"
      ≡ not ((◌==◌ {A = String} "a" "a")) && listens crowd "s" "a" "chat")
    × (lookup "a" (remove_session crowd "a").sessions
        ≡ (if (◌==◌ {A = String} "a" "a") then none else lookup "a" crowd.sessions))
remove_session_clean_example =
    remove_session_clean crowd "a" "a" "s" "chat" Reach-IsRecorded_example

abbrev before : Dict String String
before = ("k", "1") ∷ []

abbrev change : Dict String String
change = ("k", "") ∷ []
