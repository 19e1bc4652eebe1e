-- ===== src/Node/Restore/RoundTrip.antt =====
-- node/session.go, `ToCacheEntry` and `RestoreFromCache`: what a session cached is what the next one
-- has.
use anycable.Prelude.{
  ◌≡◌, ◌≢◌, ◌∙◌, refl, ap, Bool, true, false, not, ◌&&◌, ◌||◌, Option, none, some, List, [], ◌∷◌,
  String, string_eq, ◌==◌, arith, if◌then◌else◌, contains, Option-cases, inl, inr,
}
use anycable.Prelude.Dict.{Dict, Distinct, lookup, has, keys, lookup-insert}
use anycable.Common.Env.{
  SessionEnv, merge_state, merge_connection_state, merge_channel_state, state_of, verdict,
  lookup-merge_state,
}
use anycable.Node.Subscriptions.{
  SubscriptionState, streaming, has_channel, add_channel, add_channel_stream, to_map,
  streaming-add_channel_stream, has_channel-add_channel_stream,
}
use anycable.Node.CacheEntry.{CacheEntry, unmarshal-marshal}
use anycable.Node.State.{Session, to_cache_entry, cached, mark_disconnectable}
use anycable.Node.Restore.{
  restore_streams, restore_channels, restore_states, restore_entry, restore_from_cache,
}

pub contains-keys : {V : Type 0} (t : String) (m : Dict String V) → contains t (keys m) ≡ has t m
unfolding contains lookup
contains-keys t [] = refl
contains-keys t ((k, v) ∷ m) = ground (arith, contains-keys t m)

has_channel-restore_streams :
    (streams : List String) (st : SubscriptionState) (id j : String)
    → has_channel (restore_streams st id streams) j ≡ has_channel st j
unfolding restore_streams
has_channel-restore_streams [] st id j = refl
has_channel-restore_streams (t ∷ ts) st id j =
    has_channel-restore_streams ts (add_channel_stream st id t) id j
    ∙ has_channel-add_channel_stream st id t j

streaming-restore_streams :
    (streams : List String) (st : SubscriptionState) (id j t : String)
    → has_channel st id ≡ true
    → streaming (restore_streams st id streams) j t
      ≡ ((id == j) && contains t streams) || streaming st j t
unfolding restore_streams contains
streaming-restore_streams [] st id j t c = ground arith
streaming-restore_streams (s ∷ ss) st id j t c =
    streaming-restore_streams ss (add_channel_stream st id s) id j t
      (has_channel-add_channel_stream st id s id ∙ c)
    ∙ ground (arith, streaming-add_channel_stream st id s j t, c)

-- A channel that is added has no streams.
has_channel-add_channel :
    (st : SubscriptionState) (id j : String)
    → has_channel (add_channel st id) j ≡ (id == j) || has_channel st j
unfolding has_channel add_channel
has_channel-add_channel st id j = ground (arith, lookup-insert id j [] st)

streaming-add_channel :
    (st : SubscriptionState) (id j t : String)
    → streaming (add_channel st id) j t ≡ not (id == j) && streaming st j t
unfolding streaming add_channel lookup
streaming-add_channel st id j t = ground (arith, lookup-insert id j [] st)

-- What one channel of the entry adds.
abbrev with_channel : SubscriptionState → String → Dict String Bool → SubscriptionState
with_channel st id streams = restore_streams (add_channel st id) id (keys streams)

with_channel_lem :
    (st : SubscriptionState) (id : String) (streams : Dict String Bool) (j t : String)
    → (streaming (with_channel st id streams) j t
        ≡ (if id == j then has t streams else streaming st j t))
      × (has_channel (with_channel st id streams) j ≡ (id == j) || has_channel st j)
with_channel_lem st id streams j t = (
  ground (
    arith,
    streaming-restore_streams (keys streams) (add_channel st id) id j t,
    has_channel-add_channel st id id,
    streaming-add_channel st id j t,
    contains-keys t streams,
    string_eq.beq_iff id id,
  ),
  has_channel-restore_streams (keys streams) (add_channel st id) id j
      ∙ has_channel-add_channel st id j,
)

restore_channels_lem :
    (cached st : SubscriptionState) (j t : String)
    → Distinct cached
    → (streaming (restore_channels st (to_map cached)) j t
        ≡ (if has j cached then streaming cached j t else streaming st j t))
      × (has_channel (restore_channels st (to_map cached)) j ≡ has j cached || has_channel st j)
unfolding restore_channels to_map lookup streaming
restore_channels_lem [] st j t d = (refl, refl)
restore_channels_lem ((id, streams) ∷ cached) st j t d =
    let (here, known) = with_channel_lem st id streams j t in
    let (rest, named) = restore_channels_lem cached (with_channel st id streams) j t d.1 in
    (rest ∙ ground (arith, here, d.0, string_eq.beq_iff id j), named ∙ ground (arith, known))

-- No key twice, and no empty value: what merging makes of a state.
abbrev pub IsMerged : Dict String String → Type 0
IsMerged st = Distinct st × ((k : String) → lookup k st ≢ some "")

verdict_lem : (k : String) (st : Dict String String) → Distinct st → verdict k st ≡ lookup k st
unfolding verdict lookup
verdict_lem k [] d = refl
verdict_lem k ((j, v) ∷ st) d = ground (arith, verdict_lem k st d.1, d.0, string_eq.beq_iff j k)

lookup-merge_new :
    (k : String) (st : Dict String String)
    → IsMerged st
    → lookup k (merge_state [] st) ≡ lookup k st
unfolding lookup
lookup-merge_new k st (d, full) = elim (Option-cases (lookup k st)) [
  | (inl e) ↦ ground (arith, lookup-merge_state k [] st, verdict_lem k st d, e)
  | (inr (v, e)) ↦
      ground
        (arith, lookup-merge_state k [] st, verdict_lem k st d, e, full k, string_eq.beq_iff v "")
]

state_of-merge :
    (env : SessionEnv) (id j : String) (st : Dict String String)
    → state_of j (merge_channel_state env id st)
      ≡ (if id == j then merge_state (state_of id env) st else state_of j env)
unfolding merge_channel_state
state_of-merge env id j st =
    ground (arith, lookup-insert id j (merge_state (state_of id env) st) env.channel_states)

-- The states of a channel, as a map alone.
abbrev pub state_in : String → Dict String (Dict String String) → Dict String String
state_in id states = elim (lookup id states) [ none ↦ [] | some st ↦ st ]

restore_states_lem :
    (cached : Dict String (Dict String String)) (env : SessionEnv) (j : String)
    → Distinct cached
    → state_of j (restore_states env cached)
      ≡ (if has j cached then merge_state (state_of j env) (state_in j cached) else state_of j env)
unfolding restore_states lookup
restore_states_lem [] env j d = refl
restore_states_lem ((id, st) ∷ cached) env j d =
    restore_states_lem cached (merge_channel_state env id st) j d.1
    ∙ ground (arith, state_of-merge env id j st, d.0, string_eq.beq_iff id j)

connection_state-restore_states :
    (cached : Dict String (Dict String String)) (env : SessionEnv)
    → (restore_states env cached).connection_state ≡ env.connection_state
unfolding restore_states merge_channel_state
connection_state-restore_states [] env = refl
connection_state-restore_states ((id, st) ∷ cached) env =
    connection_state-restore_states cached (merge_channel_state env id st)

identifiers-restore_states :
    (cached : Dict String (Dict String String)) (env : SessionEnv)
    → (restore_states env cached).identifiers ≡ env.identifiers
unfolding restore_states merge_channel_state
identifiers-restore_states [] env = refl
identifiers-restore_states ((id, st) ∷ cached) env =
    identifiers-restore_states cached (merge_channel_state env id st)

-- Go maps have no key twice, and the states are made by merging.
pub record IsKept {S Info : Type 0} (s : Session S Info) : Type 0 where
  pub subscriptions : Distinct s.subscriptions
  pub connection : IsMerged s.env.connection_state
  pub channels : Distinct s.env.channel_states
  pub states : (id : String) → IsMerged (state_of id s.env)

-- A session that no command has changed yet.
pub record IsFresh {S Info : Type 0} (s : Session S Info) : Type 0 where
  pub subscriptions : s.subscriptions ≡ []
  pub connection : s.env.connection_state ≡ []
  pub channels : s.env.channel_states ≡ []
  pub interest : s.disconnect_interest ≡ false

streaming_nothing :
    (subs st : SubscriptionState) (id t : String)
    → st ≡ []
    → (if has id subs then streaming subs id t else streaming st id t) ≡ streaming subs id t
unfolding streaming lookup
streaming_nothing subs st id t e = rw e (ground arith)

has_channel_nothing :
    (subs st : SubscriptionState) (id : String)
    → st ≡ []
    → has id subs || has_channel st id ≡ has_channel subs id
unfolding has_channel lookup
has_channel_nothing subs st id e = rw e (ground arith)

connection_nothing :
    (k : String) (old new : Dict String String)
    → old ≡ []
    → IsMerged new
    → lookup k (merge_state old new) ≡ lookup k new
connection_nothing k old new e kept = rw e (lookup-merge_new k new kept)

state_nothing :
    (env env' : SessionEnv) (id k : String)
    → IsMerged (state_of id env)
    → env'.channel_states ≡ []
    → lookup k (
        if has id env.channel_states
        then merge_state (state_of id env') (state_in id env.channel_states)
        else state_of id env')
      ≡ lookup k (state_of id env)
unfolding lookup
state_nothing env env' id k kept none_yet =
    let empty : state_of id env' ≡ [] = ground (arith, none_yet) in
    elim (Option-cases (lookup id env.channel_states)) [
      | (inl e) ↦ ground (arith, e, empty)
      | (inr (st, e)) ↦ rw empty (ground (arith, e, lookup-merge_new k (state_of id env) kept))
    ]

module _ {S Info : Type 0} (identify : S → String → S) where
  -- What the cache keeps of `s` is in `r`, which was `fresh` before.
  pub record IsRestored (s fresh r : Session S Info) : Type 0 where
    pub handle : r.handle ≡ identify fresh.handle s.env.identifiers
    pub identifiers : r.env.identifiers ≡ s.env.identifiers
    pub channels : (id : String) → has_channel r.subscriptions id ≡ has_channel s.subscriptions id
    pub streams :
        (id stream : String)
        → streaming r.subscriptions id stream ≡ streaming s.subscriptions id stream
    pub connection :
        (k : String) → lookup k r.env.connection_state ≡ lookup k s.env.connection_state
    pub states : (id k : String) → lookup k (state_of id r.env) ≡ lookup k (state_of id s.env)
    pub interest : r.disconnect_interest ≡ s.disconnect_interest

  restore_entry-IsRestored :
      (s fresh : Session S Info)
      → IsKept s
      → IsFresh fresh
      → IsRestored s fresh (restore_entry identify fresh (to_cache_entry s))
  unfolding restore_entry to_cache_entry mark_disconnectable merge_connection_state
  restore_entry-IsRestored s fresh kept new =
      let named : SessionEnv = record fresh.env { identifiers = s.env.identifiers } in
      let env = merge_connection_state named s.env.connection_state in
      record {
        handle = refl;
        identifiers = identifiers-restore_states s.env.channel_states env;
        channels = λ id.
            (restore_channels_lem s.subscriptions fresh.subscriptions id "" kept.subscriptions).1
            ∙ has_channel_nothing s.subscriptions fresh.subscriptions id new.subscriptions;
        streams = λ id t.
            (restore_channels_lem s.subscriptions fresh.subscriptions id t kept.subscriptions).0
            ∙ streaming_nothing s.subscriptions fresh.subscriptions id t new.subscriptions;
        connection = λ k.
            ap (lookup k) (connection_state-restore_states s.env.channel_states env)
            ∙ connection_nothing k fresh.env.connection_state s.env.connection_state new.connection
                kept.connection;
        states = λ id k.
            ap (lookup k) (restore_states_lem s.env.channel_states env id kept.channels)
            ∙ state_nothing s.env env id k (kept.states id) new.channels;
        interest = ground (arith, new.interest);
      }

  pub restore_from_cache-cached :
      (s fresh : Session S Info)
      → IsKept s
      → IsFresh fresh
      → (r : Session S Info) × (restore_from_cache identify fresh (cached s) ≡ some r)
        × IsRestored s fresh r
  unfolding restore_from_cache cached
  restore_from_cache-cached s fresh kept new = (
    restore_entry identify fresh (to_cache_entry s),
    ap
        (λ (o : Option CacheEntry). elim o [
          | none ↦ none
          | some entry ↦ some (restore_entry identify fresh entry)
        ])
        (unmarshal-marshal (to_cache_entry s)),
    restore_entry-IsRestored s fresh kept new,
  )
