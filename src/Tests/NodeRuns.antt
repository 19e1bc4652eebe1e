-- ===== src/Tests/NodeRuns.antt =====
-- A session with one channel, "chat", which listens to one stream, "s".
use anycable.Prelude.{
  ◌≡◌, refl, true, false, Option, none, some, List, [], ◌∷◌, String, string_eq, arith,
}
use anycable.Prelude.Dict.{lookup}
use anycable.Common.Env.{new_session_env}
use anycable.Broker.Outcome.{ok}
use anycable.Broker.Tracker.{subscribes}
use anycable.Broker.Presence.{PresenceEvent, new_presence_state}
use anycable.Broker.Memory.{new_memory_broker}
use anycable.Hub.{new_hub}
use anycable.Hub.Gate.{HubSession}
use anycable.Hub.Reach.{listens-new_hub, new_hub-IsRecorded}
use anycable.Node.Subscriptions.{SubscriptionState, has_channel, streaming}
use anycable.Node.State.{Node}
use anycable.Node.Replies.{CommandResult, start_reply, stop_reply}
use anycable.Node.Commands.{Message, auto, result}
use anycable.Node.Requests.{unsubscribe}
use anycable.Node.Agreement.{NodeInStep, reply_streams-InStep}
use anycable.Hub.Listening.{listens}
use anycable.Node.Departure.{disconnect}
use anycable.Node.Goodbye.{unsubscribe_all, times, channels_with, disconnect_gone}
use anycable.Node.Leak.{plain_result, consent, unsubscribe_leaks}

instance abbrev pub named : HubSession String
named = record { get_id = λ s. s; get_identifiers = λ s. "user" }

abbrev pub chatting : SubscriptionState
chatting = ("chat", ("s", true) ∷ []) ∷ []

abbrev joined : SubscriptionState
joined = ("chat", []) ∷ []

abbrev pub node_of : SubscriptionState → Node String String
node_of subscriptions = record {
  session = record {
    handle = "a";
    connected = true;
    closed = false;
    inactive = false;
    resume_interval = 10;
    disconnect_interest = true;
    subscriptions = subscriptions;
    env = new_session_env "/cable";
    outbox = [];
  };
  hub = new_hub 2;
  tracked = record { tracker = ("s", 1) ∷ []; told = subscribes "s" ∷ [] };
  memory = new_memory_broker "e" 10 3;
  presence = new_presence_state;
  presence_ttl = 15;
  cache = [];
  disconnector = record { disconnect = []; is_stopped = false };
  disconnected = [];
  shutting_down = false;
}

abbrev asked : Message String
asked = record {
  identifier = "chat";
  payload = none;
  history = record { since = 0; streams = none };
  presence = none;
}

abbrev no_text : PresenceEvent (Option String) → String
no_text ev = ""

chatting-chat : has_channel chatting "chat" ≡ true
unfolding has_channel lookup
chatting-chat = refl

unsubscribe_leaks_example :
    (n' : Node String String) × (unsubscribe no_text auto 1 1000 (node_of chatting) asked consent
      ≡ ok (n', result (record plain_result { stop_all_streams = true })))
    × (has_channel n'.session.subscriptions "chat" ≡ false)
    × (n'.tracked ≡ record { tracker = ("s", 1) ∷ []; told = subscribes "s" ∷ [] })
unsubscribe_leaks_example =
    unsubscribe_leaks no_text auto 1 1000 (node_of chatting) asked chatting-chat refl

-- A reply that stops one stream and starts two.
abbrev reply : CommandResult String
reply = record plain_result { stopped_streams = some ("t" ∷ []); streams = some ("s" ∷ "u" ∷ []) }

joined-chat : has_channel joined "chat" ≡ true
unfolding has_channel lookup
joined-chat = refl

joined-InStep : NodeInStep (node_of joined)
unfolding lookup streaming
joined-InStep = record {
  recorded = new_hub-IsRecorded 2 (omega arith);
  agree = λ id stream.
      ground (arith, listens-new_hub {S = String} 2 "a" stream id, string_eq.beq_iff "chat" id);
}

reply_streams-InStep_example :
    NodeInStep (start_reply (stop_reply (node_of joined) "chat" reply) "chat" reply)
reply_streams-InStep_example =
    reply_streams-InStep (λ a b e. e) (node_of joined) "chat" reply joined-chat joined-InStep

disconnect_gone_example :
    (listens (disconnect 1000 (node_of chatting)).hub "s" "a" "chat" ≡ false)
    × (lookup "a" (disconnect 1000 (node_of chatting)).hub.sessions ≡ none)
    × ((given_back : List String) × ((disconnect 1000 (node_of chatting)).tracked
          ≡ unsubscribe_all (node_of chatting).tracked given_back)
        × ((t : String) → times t given_back ≡ channels_with t chatting))
unfolding lookup
disconnect_gone_example =
    disconnect_gone 1000 (node_of chatting) "s" "chat" (new_hub-IsRecorded 2 (omega arith)) refl
      ((refl, tt), tt)
