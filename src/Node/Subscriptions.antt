-- ===== src/Node/Subscriptions.antt =====
-- node/subscription_state.go: the channels of a session, and the streams of each. Each method is one
-- step, under the lock.
use anycable.Prelude.{
  ◌≡◌, Bool, true, false, not, ◌&&◌, ◌||◌, none, some, List, [], String, string_eq, ◌==◌, arith,
  map, Option-cases, inl, inr,
}
use anycable.Prelude.Dict.{
  Dict, Distinct, insert-Distinct, lookup, insert, delete, has, keys, lookup-insert, lookup-delete,
}

abbrev pub SubscriptionState : Type 0
SubscriptionState = Dict String (Dict String Bool)

abbrev pub new_subscription_state : SubscriptionState
new_subscription_state = []

unfoldable pub has_channel : SubscriptionState → String → Bool
has_channel st id = has id st

unfoldable pub add_channel : SubscriptionState → String → SubscriptionState
add_channel st id = insert id [] st

unfoldable pub remove_channel : SubscriptionState → String → SubscriptionState
remove_channel st id = delete id st

unfoldable pub channels : SubscriptionState → List String
channels st = keys st

unfoldable pub to_map : SubscriptionState → Dict String (List String)
to_map st = map (λ c. (c.0, keys c.1)) st

pub add_channel_stream : SubscriptionState → String → String → SubscriptionState
add_channel_stream st id stream = elim (lookup id st) [
  | none ↦ st
  | some streams ↦ insert id (insert stream true streams) st
]

pub remove_channel_stream : SubscriptionState → String → String → SubscriptionState
remove_channel_stream st id stream = elim (lookup id st) [
  | none ↦ st
  | some streams ↦ insert id (delete stream streams) st
]

-- The state, and the streams that were removed; none for an unknown channel.
unfoldable pub remove_channel_streams : SubscriptionState → String → SubscriptionState × List String
remove_channel_streams st id = elim (lookup id st) [
  | none ↦ (st, [])
  | some streams ↦ (insert id [] st, keys streams)
]

unfoldable pub streams_for : SubscriptionState → String → List String
streams_for st id = elim (lookup id st) [ none ↦ [] | some streams ↦ keys streams ]

-- Whether a channel has a stream.
unfoldable pub streaming : SubscriptionState → String → String → Bool
streaming st id stream = elim (lookup id st) [ none ↦ false | some streams ↦ has stream streams ]

-- AddChannelStream adds the stream to the channel only if the session has the channel, and no
-- other pair changes.
pub streaming-add_channel_stream :
    (st : SubscriptionState) (id stream j t : String)
    → streaming (add_channel_stream st id stream) j t
      ≡ (has_channel st id && ((id == j) && (stream == t))) || streaming st j t
unfolding streaming add_channel_stream has_channel
streaming-add_channel_stream st id stream j t = elim (Option-cases (lookup id st)) [
  | inl e ↦ ground (arith, string_eq.beq_iff id j)
  | inr (streams, e) ↦ ground (
    arith,
    lookup-insert id j (insert stream true streams) st,
    lookup-insert stream t true streams,
    string_eq.beq_iff id j,
  )
]

pub streaming-remove_channel_stream :
    (st : SubscriptionState) (id stream j t : String)
    → streaming (remove_channel_stream st id stream) j t
      ≡ not ((id == j) && (stream == t)) && streaming st j t
unfolding streaming remove_channel_stream
streaming-remove_channel_stream st id stream j t = elim (Option-cases (lookup id st)) [
  | inl e ↦ ground (arith, string_eq.beq_iff id j)
  | inr (streams, e) ↦ ground (
    arith,
    lookup-insert id j (delete stream streams) st,
    lookup-delete stream t streams,
    string_eq.beq_iff id j,
  )
]

-- RemoveChannelStreams takes all streams of the channel away at once and keeps the channel.
pub streaming-remove_channel_streams :
    (st : SubscriptionState) (id j t : String)
    → (streaming (remove_channel_streams st id).0 j t ≡ not (id == j) && streaming st j t)
      × (has_channel (remove_channel_streams st id).0 j ≡ has_channel st j)
unfolding streaming remove_channel_streams has_channel lookup
streaming-remove_channel_streams st id j t = elim (Option-cases (lookup id st)) [
  | inl e ↦ ground (arith, string_eq.beq_iff id j)
  | inr (streams, e) ↦ ground (arith, lookup-insert id j [] st, string_eq.beq_iff id j)
]

pub has_channel-add_channel_stream :
    (st : SubscriptionState) (id stream j : String)
    → has_channel (add_channel_stream st id stream) j ≡ has_channel st j
unfolding has_channel add_channel_stream
has_channel-add_channel_stream st id stream j = elim (Option-cases (lookup id st)) [
  | inl e ↦ ground arith
  | inr (streams, e) ↦
      ground (arith, lookup-insert id j (insert stream true streams) st, string_eq.beq_iff id j)
]

pub has_channel-remove_channel_stream :
    (st : SubscriptionState) (id stream j : String)
    → has_channel (remove_channel_stream st id stream) j ≡ has_channel st j
unfolding has_channel remove_channel_stream
has_channel-remove_channel_stream st id stream j = elim (Option-cases (lookup id st)) [
  | inl e ↦ ground arith
  | inr (streams, e) ↦
      ground (arith, lookup-insert id j (delete stream streams) st, string_eq.beq_iff id j)
]

pub add_channel_stream-Distinct :
    (st : SubscriptionState) (id stream : String)
    → Distinct st
    → Distinct (add_channel_stream st id stream)
unfolding add_channel_stream
add_channel_stream-Distinct st id stream d = elim (Option-cases (lookup id st)) [
  | inl e ↦ rw (e, add_channel_stream) d
  | inr (streams, e) ↦
      rw (e, add_channel_stream) (insert-Distinct id (insert stream true streams) st d)
]
