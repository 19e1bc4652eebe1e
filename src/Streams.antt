-- ===== src/Streams.antt =====
-- streams/controller.go: the local controller that subscribes a client to the stream it names, when
-- the name is signed, or when public streams are allowed. `unmarshal` decodes an identifier to its
-- stream name and its signed stream name, both empty when missing; `verified` is the message
-- verifier, which fails, or gives a value that is a string (`some`) or is not (`none`).
-- `confirmation` and `rejection` are the texts for the client.
pub mod Access
use anycable.Prelude.{
  Bool, true, false, ◌&&◌, ◌||◌, not, Option, none, some, List, [], ◌∷◌, ◌++◌, String, string_eq,
  ◌==◌, if◌then◌else◌,
}
use anycable.Prelude.Dict.{Dict}
use anycable.Node.Replies.{CommandResult, success, failure}
use anycable.Node.Commands.{Answer}

pub record SubscribeRequest : Type 0 where
  pub stream_name : String
  pub signed_stream_name : String
  pub whisper : Bool
  pub presence : Bool

pub record Config : Type 0 where
  pub public : Bool
  pub whisper : Bool
  pub presence : Bool

unfoldable pub is_present : SubscribeRequest → Bool
is_present r = not (r.stream_name == "") || not (r.signed_stream_name == "")

abbrev pub public_stream : String → String → Bool
public_stream name signed = not (name == "") && signed == ""

module _ (unmarshal : String → Option (String × String))
    (verified : String → Option (Option String)) where
  -- The resolver of `NewStreamsController`; `none` for an error.
  unfoldable pub resolve : Config → String → Option SubscribeRequest
  resolve conf identifier = elim (unmarshal identifier) [
    | none ↦ none
    | some (name, signed) ↦
        if not conf.public && public_stream name signed
        then none
        else some (record {
          stream_name = name;
          signed_stream_name = signed;
          whisper = conf.whisper || public_stream name signed;
          presence = conf.presence || public_stream name signed;
        })
  ]

  -- The stream that a request names, if it may.
  unfoldable pub stream_of : SubscribeRequest → Option String
  unfolding is_present
  stream_of r =
      if not (is_present r)
      then none
      else if r.signed_stream_name == ""
      then some r.stream_name
      else (elim (verified r.signed_stream_name) [ none ↦ none | some value ↦ value ])

  unfoldable pub verified_stream : Config → String → Option (SubscribeRequest × String)
  unfolding resolve stream_of
  verified_stream conf identifier = elim (resolve conf identifier) [
    | none ↦ none
    | some r ↦ elim (stream_of r) [ none ↦ none | some stream ↦ some (r, stream) ]
  ]

  -- The channel's state with the streams for whispers and presence; `none` for Go's nil.
  unfoldable pub channel_state : Bool → Bool → String → Option (Dict String String)
  channel_state true true stream = some (("$w", stream) ∷ ("$p", stream) ∷ [])
  channel_state true false stream = some (("$w", stream) ∷ [])
  channel_state false true stream = some (("$p", stream) ∷ [])
  channel_state false false stream = none

  module _ {Info : Type 0} (confirmation rejection : String → String) where
    abbrev pub plain : CommandResult Info
    plain = record {
      stop_all_streams = false;
      disconnect = false;
      streams = none;
      stopped_streams = none;
      transmissions = [];
      broadcasts = [];
      connection_state = none;
      channel_state = none;
      presence = none;
      disconnect_interest = true;
      status = success;
    }

    unfoldable pub subscribe : Config → String → Answer Info
    unfolding channel_state
    subscribe conf identifier = elim (verified_stream conf identifier) [
      | none ↦ record {
        result =
            some (record plain { status = failure; transmissions = rejection identifier ∷ [] });
        failed = true;
        closed_meanwhile = false;
      }
      | some (r, stream) ↦ record {
        result = some (record plain {
          transmissions = confirmation identifier ∷ [];
          streams = some (stream ∷ []);
          disconnect_interest = false;
          channel_state = channel_state r.whisper r.presence stream;
        });
        failed = false;
        closed_meanwhile = false;
      }
    ]

    unfoldable pub unsubscribe : Answer Info
    unsubscribe = record {
      result = some (record plain { streams = some []; stop_all_streams = true });
      failed = false;
      closed_meanwhile = false;
    }
