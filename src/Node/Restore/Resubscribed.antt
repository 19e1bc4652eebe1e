-- ===== src/Node/Restore/Resubscribed.antt =====
-- node/node.go, `TryRestoreSession`: a session that comes back listens on the hub to what it is
-- subscribed to.
use anycable.Prelude.{
  ◌≡◌, ◌≢◌, ◌∙◌, refl, sym, ap, if_false, subst, Bool, true, false, ◌&&◌, ◌||◌, Option, none, some,
  List, [], ◌∷◌, String, string_eq, ◌==◌, arith, contains, Eq, ==_refl,
}
use anycable.Prelude.Dict.{Dict, Distinct, lookup, insert-Distinct}
use anycable.Broker.Tracker
use anycable.Hub.{Hub, add_session, subscribe_session, with_gate}
use anycable.Hub.Gate
use anycable.Hub.Gate.{HubSession}
use anycable.Hub.Listening.{listens, listens-subscribe, listens_by_gates}
use anycable.Hub.Registry.{
  IsRecorded, listens_unregistered, subscribe_session-IsRecorded, add_session-IsRecorded,
}
use anycable.Node.Subscriptions.{
  SubscriptionState, streaming, add_channel, add_channel_stream, to_map, channels,
  add_channel_stream-Distinct,
}
use anycable.Node.CacheEntry.{CacheEntry, JsonObject, unmarshal}
use anycable.Node.State.{Node, Session, send, commit_session, welcome}
use anycable.Node.Agreement.{InStep, NodeInStep}
use anycable.Node.Restore.{
  restore_streams, restore_channels, restore_entry, restore_from_cache, resubscribe_streams,
  resubscribe, resume, restore_found, try_restore_session,
}
use anycable.Node.Restore.RoundTrip.{contains-keys}

-- A channel has the stream, in the list of the channels.
abbrev mentions : Dict String (List String) → String → String → Bool
mentions [] id stream = false
mentions ((j, streams) ∷ rest) id stream =
    ((j == id) && contains stream streams) || mentions rest id stream

mentions-to_map :
    (subs : SubscriptionState) (id stream : String)
    → Distinct subs
    → mentions (to_map subs) id stream ≡ streaming subs id stream
unfolding to_map streaming lookup
mentions-to_map [] id stream d = refl
mentions-to_map ((j, streams) ∷ subs) id stream d = ground (
  arith,
  mentions-to_map subs id stream d.1,
  contains-keys stream streams,
  d.0,
  string_eq.beq_iff j id,
)

restore_streams-Distinct :
    (streams : List String) (subs : SubscriptionState) (id : String)
    → Distinct subs
    → Distinct (restore_streams subs id streams)
unfolding restore_streams
restore_streams-Distinct [] subs id d = d
restore_streams-Distinct (t ∷ ts) subs id d =
    restore_streams-Distinct ts (add_channel_stream subs id t) id
      (add_channel_stream-Distinct subs id t d)

restore_channels-Distinct :
    (cached : Dict String (List String)) (subs : SubscriptionState)
    → Distinct subs
    → Distinct (restore_channels subs cached)
unfolding restore_channels add_channel
restore_channels-Distinct [] subs d = d
restore_channels-Distinct ((id, streams) ∷ cached) subs d =
    restore_channels-Distinct cached (restore_streams (add_channel subs id) id streams)
      (restore_streams-Distinct streams (add_channel subs id) id (insert-Distinct id [] subs d))

module _ {S : Type 0} ⦃e : Eq S⦄ ⦃i : HubSession S⦄ where
  listens-subscribe_session :
      (h : Hub S) (s : S) (stream id t j : String)
      → IsRecorded h
      → listens (subscribe_session h s stream id) t s j
        ≡ ((id == j) && (stream == t)) || listens h t s j
  unfolding subscribe_session
  listens-subscribe_session h s stream id t j v =
      listens_by_gates (subscribe_session h s stream id)
        (with_gate h stream (λ g. Gate.subscribe g s stream id)) s t j refl refl
      ∙ (listens-subscribe h s s stream t id j v.gates ∙ ground (arith, ==_refl s))

  listens_added :
      (h : Hub S) (s : S) (stream id : String)
      → lookup (i.get_id s) h.sessions ≡ none
      → IsRecorded h
      → listens (add_session h s) stream s id ≡ false
  unfolding add_session
  listens_added h s stream id new v =
      listens_by_gates (add_session h s) h s stream id refl refl
      ∙ listens_unregistered h s stream id new v

module _ {S Info : Type 0} ⦃e : Eq S⦄ ⦃i : HubSession S⦄ where
  pub commit_session_rest :
      (n : Node S Info)
      → ((commit_session n).hub ≡ n.hub) × ((commit_session n).session ≡ n.session)
  unfolding commit_session
  commit_session_rest n = (ground arith, ground arith)

module _ {S Info : Type 0} ⦃e : Eq S⦄ ⦃i : HubSession S⦄
    (unique : (a b : S) → i.get_id a ≡ i.get_id b → a ≡ b) where
  -- After subscribing, the session listens to what is listed, too.
  record Listening (n n' : Node S Info) (more : String → String → Bool) : Type 0 where
    same : n'.session ≡ n.session
    recorded : IsRecorded n'.hub
    listening :
        (id stream : String)
        → listens n'.hub stream n.session.handle id
          ≡ more id stream || listens n.hub stream n.session.handle id

  resubscribe_streams-Listening :
      (streams : List String) (id : String) (n : Node S Info)
      → IsRecorded n.hub
      → Listening n (resubscribe_streams n id streams) (λ j t. (id == j) && contains t streams)
  unfolding resubscribe_streams contains
  resubscribe_streams-Listening [] id n v = record {
    same = refl;
    recorded = v;
    listening = λ j t. ground arith;
  }
  resubscribe_streams-Listening (stream ∷ streams) id n v =
      let s = n.session.handle in
      let n' : Node S Info = record n {
        tracked = Tracker.subscribe n.tracked stream;
        hub = subscribe_session n.hub s stream id;
      } in
      let rest =
        resubscribe_streams-Listening streams id n'
          (subscribe_session-IsRecorded unique n.hub s stream id v) in
      record {
        same = rest.same;
        recorded = rest.recorded;
        listening = λ j t.
            rest.listening j t ∙ ground (arith, listens-subscribe_session n.hub s stream id t j v);
      }

  resubscribe-Listening :
      (channels : Dict String (List String)) (n : Node S Info)
      → IsRecorded n.hub
      → Listening n (resubscribe n channels) (mentions channels)
  unfolding resubscribe
  resubscribe-Listening [] n v = record { same = refl; recorded = v; listening = λ j t. refl }
  resubscribe-Listening ((id, streams) ∷ channels) n v =
      let once = resubscribe_streams-Listening streams id n v in
      let n' = resubscribe_streams n id streams in
      let rest = resubscribe-Listening channels n' once.recorded in
      record {
        same = rest.same ∙ once.same;
        recorded = rest.recorded;
        listening = λ j t.
            subst
              (λ s.
                listens (resubscribe n' channels).hub t s j
                ≡ mentions channels j t || listens n'.hub t s j)
              (ap Session.handle once.same) (rest.listening j t)
            ∙ ground (arith, once.listening j t);
      }

  resume-InStep :
      (n : Node S Info) (restored : Session S Info)
      → IsRecorded n.hub
      → lookup (i.get_id restored.handle) n.hub.sessions ≡ none
      → Distinct restored.subscriptions
      → NodeInStep (resume n restored) × (Session.connected (resume n restored).session ≡ true)
  unfolding resume send
  resume-InStep n restored v new d =
      let s : Session S Info = record restored { connected = true } in
      let added : Node S Info = record n { session = s; hub = add_session n.hub s.handle } in
      let w = add_session-IsRecorded unique n.hub s.handle new v in
      let l = resubscribe-Listening (to_map s.subscriptions) added w in
      let listening = resubscribe added (to_map s.subscriptions) in
      let done = send listening (welcome (i.get_id s.handle) (channels s.subscriptions)) in
      let (hub, session) = commit_session_rest done in
      let agree : InStep listening.hub s.handle s.subscriptions = record {
        recorded = l.recorded;
        agree = λ id t.
            l.listening id t
            ∙ ground (
              arith,
              mentions-to_map s.subscriptions id t d,
              listens_added n.hub s.handle t id new v,
            );
      } in
      (
        subst (λ (x : Session S Info). InStep (commit_session done).hub x.handle x.subscriptions)
            (sym session)
            (subst (λ h. InStep h done.session.handle done.session.subscriptions) (sym hub)
              (subst (λ (x : Session S Info). InStep listening.hub x.handle x.subscriptions)
                (sym l.same) agree)),
        ap Session.connected session ∙ ap Session.connected l.same,
      )

  -- What follows the decoding of an entry.
  abbrev restore_decoded :
      (S → String → S) → Node S Info → Option CacheEntry → Option (Session S Info)
  restore_decoded identify n none = none
  restore_decoded identify n (some entry) = some (restore_entry identify n.session entry)

  abbrev decide : Node S Info → Option (Session S Info) → Node S Info × Bool
  decide n none = (n, false)
  decide n (some restored) = (resume n restored, true)

  -- A client that gives an id under which a session is cached that can be decoded, and whose own
  -- session is not closed meanwhile, is restored: when sessions have ids of their own, the hub was
  -- recorded and does not know the session yet, and the session had no subscriptions, the session
  -- is connected, and the hub and its subscriptions agree.
  pub try_restore_session-InStep :
      (identify : S → String → S) (n : Node S Info) (prev_sid : String) (cached : JsonObject)
      (entry : CacheEntry)
      → prev_sid ≢ ""
      → lookup prev_sid n.cache ≡ some cached
      → unmarshal cached ≡ some entry
      → n.session.closed ≡ false
      → n.session.subscriptions ≡ []
      → IsRecorded n.hub
      → lookup (i.get_id (identify n.session.handle entry.identifiers)) n.hub.sessions ≡ none
      → (n' : Node S Info) × (try_restore_session identify n prev_sid ≡ (n', true))
        × (n'.session.connected ≡ true)
        × NodeInStep n'
  unfolding try_restore_session restore_from_cache restore_entry
  try_restore_session-InStep identify n prev_sid cached entry named found decoded still_open new v
        unknown =
      let d : Distinct (restore_channels n.session.subscriptions entry.subscriptions) =
        restore_channels-Distinct entry.subscriptions n.session.subscriptions
          (subst Distinct (sym new) tt) in
      let restored = restore_entry identify n.session entry in
      let (agree, on) = resume-InStep n restored v unknown d in
      (
        resume n restored,
        if_false (prev_sid == "") _ _ (ground (arith, named, string_eq.beq_iff prev_sid ""))
            ∙ ap (restore_found identify n) found
            ∙ if_false n.session.closed _ _ still_open
            ∙ ap (decide n) (ap (restore_decoded identify n) decoded),
        on,
        agree,
      )
