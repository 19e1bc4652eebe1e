-- ===== src/Rpc/Protocol.antt =====
-- protocol/protocol.go: the messages of the application's protocol, made of the session and read as
-- results. Headers are left out; the JSON decoder and encoder are parameters.
use anycable.Prelude.{
  Bool, true, Option, none, some, List, [], ◌∷◌, String, string_eq, ◌==◌, if◌then◌else◌,
}
use anycable.Prelude.Dict.{Dict, lookup}
use anycable.Common.Env.{SessionEnv}
use anycable.Node.Replies.{CommandResult, Status, success, error}
use anycable.Node.Auth.{ConnectResult}
use anycable.Broker.Presence.{PresenceEvent}

pub record Env : Type 0 where
  pub url : String
  pub cstate : Dict String String
  pub istate : Dict String String

pub record ConnectionResponse : Type 0 where
  pub status : Status
  pub identifiers : String
  pub transmissions : List String
  pub error_msg : String
  -- `env.cstate`, where the answer has an environment.
  pub env : Option Env

pub record PresenceResponse : Type 0 where
  pub presence_type : String
  pub id : String
  pub info : String

pub record CommandResponse : Type 0 where
  pub status : Status
  pub disconnect : Bool
  pub stop_streams : Bool
  pub streams : List String
  pub stopped_streams : List String
  pub transmissions : List String
  pub error_msg : String
  pub env : Option Env
  pub presence : Option PresenceResponse

pub record DisconnectResponse : Type 0 where
  pub status : Status
  pub error_msg : String

pub record CommandMessage : Type 0 where
  pub command : String
  pub env : Env
  pub identifier : String
  pub connection_identifiers : String
  pub message_data : String

pub record DisconnectRequest : Type 0 where
  pub identifiers : String
  pub subscriptions : List String
  pub env : Env

abbrev pub build_env : SessionEnv → Env
build_env env = record { url = env.url; cstate = env.connection_state; istate = [] }

unfoldable pub build_channel_env : String → SessionEnv → Env
build_channel_env id env = elim (lookup id env.channel_states) [
  | none ↦ build_env env
  | some st ↦ record (build_env env) { istate = st }
]

-- `encode` is the JSON of a state.
abbrev pub encoded_states :
    (Dict String String → String) → Dict String (Dict String String) → Dict String String
encoded_states encode [] = []
encoded_states encode ((id, st) ∷ rest) = (id, encode st) ∷ encoded_states encode rest

unfoldable pub build_disconnect_env : (Dict String String → String) → SessionEnv → Env
build_disconnect_env encode env = record (build_env env) {
  istate = encoded_states encode env.channel_states;
}

unfoldable pub new_connect_message : SessionEnv → Env
new_connect_message env = build_env env

unfoldable pub new_command_message : SessionEnv → String → String → String → String → CommandMessage
unfolding build_channel_env
new_command_message env command channel identifiers content = record {
  command = command;
  env = build_channel_env channel env;
  identifier = channel;
  connection_identifiers = identifiers;
  message_data = content;
}

unfoldable pub new_disconnect_message :
    (Dict String String → String) → SessionEnv → String → List String → DisconnectRequest
unfolding build_disconnect_env
new_disconnect_message encode env identifiers subscriptions = record {
  identifiers = identifiers;
  subscriptions = subscriptions;
  env = build_disconnect_env encode env;
}

-- A result, and the error that comes with it.
abbrev pub application_error : Status → String → Option String
application_error error msg = some msg
application_error _ msg = none

abbrev pub identifiers_for : Status → String → String
identifiers_for success identifiers = identifiers
identifiers_for _ identifiers = ""

-- An empty map is a map that is not sent, which is nil when it arrives.
abbrev pub sent_state : Dict String String → Option (Dict String String)
sent_state [] = none
sent_state (pair ∷ pairs) = some (pair ∷ pairs)

abbrev pub env_state : (Env → Dict String String) → Option Env → Option (Dict String String)
env_state state none = none
env_state state (some env) = sent_state (state env)

unfoldable pub parse_connect_response : ConnectionResponse → ConnectResult × Option String
parse_connect_response response = (
  record {
    identifier = identifiers_for response.status response.identifiers;
    transmissions = response.transmissions;
    broadcasts = [];
    connection_state = env_state Env.cstate response.env;
    disconnect_interest = true;
    status = response.status;
  },
  application_error response.status response.error_msg,
)

-- An empty list of streams is the list that is not sent.
abbrev pub sent : List String → Option (List String)
sent [] = none
sent (stream ∷ streams) = some (stream ∷ streams)

module _ {Info : Type 0} (decode : String → Option Info) (of_string : String → Info) where
  abbrev pub presence_info : String → Option Info
  presence_info info =
      if info == ""
      then none
      else elim (decode info) [ none ↦ some (of_string info) | some i ↦ some i ]

  abbrev pub presence_event : Option PresenceResponse → Option (PresenceEvent Info)
  presence_event none = none
  presence_event (some p) =
      some (record { event_type = p.presence_type; id = p.id; info = presence_info p.info })

  unfoldable pub parse_command_response : CommandResponse → CommandResult Info × Option String
  parse_command_response response = (
    record {
      stop_all_streams = response.stop_streams;
      disconnect = response.disconnect;
      streams = sent response.streams;
      stopped_streams = sent response.stopped_streams;
      transmissions = response.transmissions;
      broadcasts = [];
      connection_state = env_state Env.cstate response.env;
      channel_state = env_state Env.istate response.env;
      presence = presence_event response.presence;
      disconnect_interest = true;
      status = response.status;
    },
    application_error response.status response.error_msg,
  )

unfoldable pub parse_disconnect_response : DisconnectResponse → Option String
parse_disconnect_response response = application_error response.status response.error_msg
