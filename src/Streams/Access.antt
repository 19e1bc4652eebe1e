-- ===== src/Streams/Access.antt =====
-- Who may listen to what through the controller of streams/controller.go.
use anycable.Prelude.{
  ◌≡◌, refl, ◌⊎◌, inl, inr, true, false, ◌&&◌, ◌||◌, not, Option, none, some, Bool, if◌then◌else◌,
  [], ◌∷◌, String, string_eq, ◌==◌, arith, Option-cases, Bool-cases,
}
use anycable.Prelude.Dict.{Dict, lookup}
use anycable.Node.Commands.{Answer}
use anycable.Node.Replies.{CommandResult, failure, success}
use anycable.Streams.{
  SubscribeRequest, Config, is_present, public_stream, resolve, stream_of, verified_stream,
  channel_state, plain, subscribe,
}

module _ (unmarshal : String → Option (String × String))
    (verified : String → Option (Option String)) where
  -- The identifier gives access to the stream: it names it under a signature that is valid, or it
  -- names it in the open and public streams are allowed.
  abbrev pub Grants : Config → String → String → SubscribeRequest → Type 0
  Grants conf identifier stream r =
      (unmarshal identifier ≡ some (r.stream_name, r.signed_stream_name))
      × (r.whisper ≡ conf.whisper || public_stream r.stream_name r.signed_stream_name)
      × (r.presence ≡ conf.presence || public_stream r.stream_name r.signed_stream_name)
      × (((r.signed_stream_name == "") ≡ false
            × (verified r.signed_stream_name ≡ some (some stream)))
          ⊎ ((public_stream r.stream_name r.signed_stream_name ≡ true)
              × (r.stream_name ≡ stream)
              × (conf.public ≡ true)))

  resolved :
      (conf : Config) (identifier : String) (r : SubscribeRequest)
      → resolve unmarshal verified conf identifier ≡ some r
      → (unmarshal identifier ≡ some (r.stream_name, r.signed_stream_name))
        × (r.whisper ≡ conf.whisper || public_stream r.stream_name r.signed_stream_name)
        × (r.presence ≡ conf.presence || public_stream r.stream_name r.signed_stream_name)
        × (not conf.public && public_stream r.stream_name r.signed_stream_name ≡ false)
  unfolding resolve
  resolved conf identifier r h = ground (arith, h)

  named :
      (r : SubscribeRequest) (stream : String)
      → stream_of unmarshal verified r ≡ some stream
      → ((r.signed_stream_name == "") ≡ false
          × (verified r.signed_stream_name ≡ some (some stream)))
        ⊎ ((public_stream r.stream_name r.signed_stream_name ≡ true) × (r.stream_name ≡ stream))
  unfolding stream_of is_present
  named r stream h = elim (Bool-cases (r.signed_stream_name == "")) [
    | inl e ↦ inr (ground (arith, h, e))
    | inr e ↦ inl (ground (arith, h, e))
  ]

  verified_stream-Grants :
      (conf : Config) (identifier stream : String) (r : SubscribeRequest)
      → verified_stream unmarshal verified conf identifier ≡ some (r, stream)
      → Grants conf identifier stream r
  unfolding verified_stream
  verified_stream-Grants conf identifier stream r h =
      let p : resolve unmarshal verified conf identifier ≡ some r = ground (arith, h) in
      let q : stream_of unmarshal verified r ≡ some stream = ground (arith, h) in
      let (a, b, c, d) = resolved conf identifier r p in
      (
        a,
        b,
        c,
        elim (named r stream q) [
          | inl signed ↦ inl signed
          | inr (open_name, same) ↦ inr (open_name, same, ground (arith, d, open_name))
        ],
      )

  -- What the channel's state has for a key.
  abbrev pub read_state : String → Option (Dict String String) → Option String
  read_state k none = none
  read_state k (some st) = lookup k st

  -- The state names the stream for whispers and for presence just where these are allowed.
  abbrev pub Allows : SubscribeRequest → String → Option (Dict String String) → Type 0
  Allows r stream st =
      (read_state "$w" st ≡ (if r.whisper then some stream else none))
      × (read_state "$p" st ≡ (if r.presence then some stream else none))

  channel_state-Allows :
      (whisper presence : Bool) (stream : String)
      → (read_state "$w" (channel_state unmarshal verified whisper presence stream)
          ≡ (if whisper then some stream else none))
        × (read_state "$p" (channel_state unmarshal verified whisper presence stream)
            ≡ (if presence then some stream else none))
  unfolding channel_state lookup
  channel_state-Allows true true stream = (refl, refl)
  channel_state-Allows true false stream = (refl, refl)
  channel_state-Allows false true stream = (refl, refl)
  channel_state-Allows false false stream = (refl, refl)

  module _ {Info : Type 0} where
    -- A result that does nothing but what its other fields say.
    pub record IsPlain (res : CommandResult Info) : Type 0 where
      pub stop_all_streams : res.stop_all_streams ≡ false
      pub disconnect : res.disconnect ≡ false
      pub stopped_streams : res.stopped_streams ≡ none
      pub broadcasts : res.broadcasts ≡ []
      pub connection_state : res.connection_state ≡ none
      pub presence : res.presence ≡ none

    -- A refusal, or a confirmation of one stream that the identifier grants.
    abbrev pub Answered : Config → String → String → String → Answer Info → Type 0
    Answered conf identifier confirmed refused answer =
        (res : CommandResult Info) × (answer.result ≡ some res)
        × IsPlain res
        × (((answer.failed ≡ true)
              × (res.status ≡ failure)
              × (res.streams ≡ none)
              × (res.channel_state ≡ none)
              × (res.disconnect_interest ≡ true)
              × (res.transmissions ≡ refused ∷ []))
            ⊎ ((r : SubscribeRequest) × (stream : String) × (answer.failed ≡ false)
                × Grants conf identifier stream r
                × Allows r stream res.channel_state
                × (res.status ≡ success)
                × (res.streams ≡ some (stream ∷ []))
                × (res.disconnect_interest ≡ false)
                × (res.transmissions ≡ confirmed ∷ [])))

  module _ {Info : Type 0} (confirmation rejection : String → String) where
    -- The streams controller either refuses a subscription, with an error, a failure, no stream and
    -- no state, or confirms it to one stream that the identifier grants (under a valid signature,
    -- or public where that is allowed); the state then names that stream for whispers and for
    -- presence just where the configuration, or its being public, allows them. Either way the
    -- result asks for nothing else.
    pub subscribe-Grants :
        (conf : Config) (identifier : String)
        → Answered conf identifier
            (confirmation identifier)
            (rejection identifier)
            (subscribe unmarshal verified {Info = Info} confirmation rejection conf identifier)
    unfolding subscribe
    subscribe-Grants conf identifier =
        elim (Option-cases (verified_stream unmarshal verified conf identifier)) [
          | inl e ↦
              let res : CommandResult Info =
                record (plain unmarshal verified confirmation rejection) {
                  status = failure;
                  transmissions = rejection identifier ∷ [];
                } in
              (
                res,
                rw (e, subscribe) refl,
                record {
                  stop_all_streams = refl;
                  disconnect = refl;
                  stopped_streams = refl;
                  broadcasts = refl;
                  connection_state = refl;
                  presence = refl;
                },
                inl (rw (e, subscribe) refl, refl, refl, refl, refl, refl),
              )
          | inr ((r, stream), e) ↦
              let res : CommandResult Info =
                record (plain unmarshal verified confirmation rejection) {
                  transmissions = confirmation identifier ∷ [];
                  streams = some (stream ∷ []);
                  disconnect_interest = false;
                  channel_state = channel_state unmarshal verified r.whisper r.presence stream;
                } in
              (
                res,
                rw (e, subscribe) refl,
                record {
                  stop_all_streams = refl;
                  disconnect = refl;
                  stopped_streams = refl;
                  broadcasts = refl;
                  connection_state = refl;
                  presence = refl;
                },
                inr (
                  r,
                  stream,
                  rw (e, subscribe) refl,
                  verified_stream-Grants conf identifier stream r e,
                  channel_state-Allows r.whisper r.presence stream,
                  refl,
                  refl,
                  refl,
                  refl,
                ),
              )
        ]
