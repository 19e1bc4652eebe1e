-- ===== src/Node/Agreement.antt =====
-- The two records of what a session listens to: the hub's gates, and the session's own
-- `subscriptions` (node/subscription_state.go). `handleCommandReply` (node/node.go) keeps them alike.
use anycable.Prelude.{
  ◌≡◌, refl, ◌∙◌, true, List, [], ◌∷◌, String, string_eq, Eq, arith, Option-cases, Bool-cases, inl,
  inr, ==_refl,
}
use anycable.Hub.{
  Hub, subscribe_session, unsubscribe_session, unsubscribe_session_from_channel, with_gate,
}
use anycable.Hub.Gate
use anycable.Hub.Gate.{HubSession}
use anycable.Hub.Listening.{
  listens, listens-subscribe, listens-unsubscribe_session, listens_by_gates,
}
use anycable.Hub.Registry.{IsRecorded, subscribe_session-IsRecorded, unsubscribe_session-IsRecorded}
use anycable.Hub.Removal.{
  unsubscribe_session_from_channel_clean, unsubscribe_session_from_channel-IsRecorded,
}
use anycable.Node.Subscriptions.{
  SubscriptionState, streaming, has_channel, add_channel_stream, remove_channel_stream,
  remove_channel_streams, streaming-add_channel_stream, streaming-remove_channel_stream,
  streaming-remove_channel_streams, has_channel-add_channel_stream,
  has_channel-remove_channel_stream,
}
use anycable.Node.State.{Node}
use anycable.Node.Replies.{
  CommandResult, release, start_stream, stop_stream, release_all, stop_streams, start_streams,
  stop_all, stop_reply, start_reply,
}

module _ {S : Type 0} ⦃e : Eq S⦄ ⦃i : HubSession S⦄ where
  -- A hub and the subscriptions of one of its sessions agree.
  pub record InStep (h : Hub S) (s : S) (subscriptions : SubscriptionState) : Type 0 where
    pub recorded : IsRecorded h
    pub agree : (id stream : String) → listens h stream s id ≡ streaming subscriptions id stream

  module _ (unique : (a b : S) → i.get_id a ≡ i.get_id b → a ≡ b) where
    subscribe-InStep :
        (h : Hub S) (s : S) (subs : SubscriptionState) (stream id : String)
        → has_channel subs id ≡ true
        → InStep h s subs
        → InStep (subscribe_session h s stream id) s (add_channel_stream subs id stream)
    unfolding subscribe_session
    subscribe-InStep h s subs stream id c v = record {
      recorded = subscribe_session-IsRecorded unique h s stream id v.recorded;
      agree = λ j t.
          listens_by_gates (subscribe_session h s stream id)
            (with_gate h stream (λ g. Gate.subscribe g s stream id)) s t j refl refl
          ∙ (listens-subscribe h s s stream t id j v.recorded.gates
              ∙ ground (
                arith,
                v.agree j t,
                streaming-add_channel_stream subs id stream j t,
                c,
                ==_refl s,
              ));
    }

    unsubscribe-InStep :
        (h : Hub S) (s : S) (subs : SubscriptionState) (stream id : String)
        → InStep h s subs
        → InStep (unsubscribe_session h s stream id) s (remove_channel_stream subs id stream)
    unsubscribe-InStep h s subs stream id v = record {
      recorded = unsubscribe_session-IsRecorded unique h s stream id v.recorded;
      agree = λ j t.
          listens-unsubscribe_session h s s stream t id j v.recorded.gates
          ∙ ground
              (arith, v.agree j t, streaming-remove_channel_stream subs id stream j t, ==_refl s);
    }

    leave-InStep :
        (h : Hub S) (s : S) (subs : SubscriptionState) (id : String)
        → InStep h s subs
        → InStep (unsubscribe_session_from_channel h s id) s (remove_channel_streams subs id).0
    leave-InStep h s subs id v = record {
      recorded = unsubscribe_session_from_channel-IsRecorded unique h s id v.recorded;
      agree = λ j t.
          unsubscribe_session_from_channel_clean h s s id t j v.recorded
          ∙ ground (arith, v.agree j t, streaming-remove_channel_streams subs id j t, ==_refl s);
    }

module _ {S Info : Type 0} ⦃e : Eq S⦄ ⦃i : HubSession S⦄ where
  abbrev pub NodeInStep : Node S Info → Type 0
  NodeInStep n = InStep n.hub n.session.handle n.session.subscriptions

  module _ (unique : (a b : S) → i.get_id a ≡ i.get_id b → a ≡ b) where
    start_streams-InStep :
        (id : String) (streams : List String) (n : Node S Info)
        → has_channel n.session.subscriptions id ≡ true
        → NodeInStep n
        → NodeInStep (start_streams n id streams)
    unfolding start_streams start_stream
    start_streams-InStep id [] n c v = v
    start_streams-InStep id (t ∷ ts) n c v =
        start_streams-InStep id ts (start_stream n id t)
          (has_channel-add_channel_stream n.session.subscriptions id t id ∙ c)
          (subscribe-InStep unique n.hub n.session.handle n.session.subscriptions t id c v)

    stop_streams-InStep :
        (id : String) (streams : List String) (n : Node S Info)
        → NodeInStep n
        → NodeInStep (stop_streams n id streams)
          × (has_channel (stop_streams n id streams).session.subscriptions id
              ≡ has_channel n.session.subscriptions id)
    unfolding stop_streams stop_stream
    stop_streams-InStep id [] n v = (v, refl)
    stop_streams-InStep id (t ∷ ts) n v =
        let (w, c) =
          stop_streams-InStep id ts (stop_stream n id t)
            (unsubscribe-InStep unique n.hub n.session.handle n.session.subscriptions t id v) in
        (w, c ∙ has_channel-remove_channel_stream n.session.subscriptions id t id)

    release_all_rest :
        (streams : List String) (n : Node S Info)
        → ((release_all n streams).hub ≡ n.hub) × ((release_all n streams).session ≡ n.session)
    unfolding release_all release
    release_all_rest [] n = (refl, refl)
    release_all_rest (t ∷ ts) n = release_all_rest ts (release n t)

    stop_all-InStep :
        (id : String) (n : Node S Info)
        → NodeInStep n
        → NodeInStep (stop_all n id)
          × (has_channel (stop_all n id).session.subscriptions id
              ≡ has_channel n.session.subscriptions id)
    unfolding stop_all
    stop_all-InStep id n v =
        let s = n.session in
        let removal = remove_channel_streams s.subscriptions id in
        let cut : Node S Info = record n {
          hub = unsubscribe_session_from_channel n.hub s.handle id;
          session = record s { subscriptions = removal.0 };
        } in
        let (hub, session) = release_all_rest removal.1 cut in
        (
          rw (hub, session) (leave-InStep unique n.hub s.handle s.subscriptions id v),
          rw session (streaming-remove_channel_streams s.subscriptions id id id).1,
        )

    stop_reply-InStep :
        (n : Node S Info) (id : String) (reply : CommandResult Info)
        → NodeInStep n
        → NodeInStep (stop_reply n id reply)
          × (has_channel (stop_reply n id reply).session.subscriptions id
              ≡ has_channel n.session.subscriptions id)
    unfolding stop_reply
    stop_reply-InStep n id reply v = elim (Bool-cases reply.stop_all_streams) [
      | inl all ↦ rw (all, stop_reply) (stop_all-InStep id n v)
      | inr some_of ↦ elim (Option-cases reply.stopped_streams) [
        | inl e ↦ rw (some_of, stop_reply) rw e (v, refl)
        | inr (ts, e) ↦ rw (some_of, stop_reply) rw e (stop_streams-InStep id ts n v)
      ]
    ]

    -- The hub and the subscriptions of the session agree after the streams of a controller reply
    -- are stopped and started, whichever the reply asks for, when the session has the channel and
    -- sessions have ids of their own.
    pub reply_streams-InStep :
        (n : Node S Info) (id : String) (reply : CommandResult Info)
        → has_channel n.session.subscriptions id ≡ true
        → NodeInStep n
        → NodeInStep (start_reply (stop_reply n id reply) id reply)
    unfolding start_reply
    reply_streams-InStep n id reply c v =
        let (w, kept) = stop_reply-InStep n id reply v in
        elim (Option-cases reply.streams) [
          | inl e ↦ rw (e, start_reply) w
          | inr (ts, e) ↦
              rw (e, start_reply) (start_streams-InStep id ts (stop_reply n id reply) (kept ∙ c) w)
        ]
