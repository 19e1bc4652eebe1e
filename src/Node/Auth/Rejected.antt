-- ===== src/Node/Auth/Rejected.antt =====
-- node/node.go, `Authenticate`: a client that the controller rejected comes back.
use anycable.Prelude.{
  ℕ, ◌≡◌, ◌≢◌, ◌∙◌, refl, ap, Bool, true, false, not, ◌&&◌, ◌||◌, Option, none, some, List, [], ◌∷◌,
  String, string_eq, ◌==◌, if◌then◌else◌, if_true, if_false, arith, Eq, subst,
}
use anycable.Prelude.Dict.{Dict, lookup, lookup-insert}
use anycable.Broker.Outcome.{Outcome, ok, ◌>>=◌}
use anycable.Broker.Tracker
use anycable.Hub.{add_session, subscribe_session}
use anycable.Common.Env.{merge_connection_state}
use anycable.Node.Subscriptions.{to_map, channels}
use anycable.Hub.Gate.{HubSession}
use anycable.Node.CacheEntry.{unmarshal-marshal}
use anycable.Node.State.{
  Node, Session, is_resumeable, cached, to_cache_entry, commit_session, send, welcome, transmission,
  mark_disconnectable,
}
use anycable.Node.Replies.{handle_call_reply, transmit, broadcast_all}
use anycable.Node.Departure.{disconnect_session, disconnect_from_node, close_session}
use anycable.Node.Commands.{DisconnectMode, always, never, auto, mark_interest}
use anycable.Node.Requests.{is_success}
use anycable.Node.Restore.Resubscribed.{commit_session_rest}
use anycable.Node.Restore.{
  resubscribe_streams, resubscribe, resume, restore_found, try_restore_session, restore_from_cache,
  restore_entry,
}
use anycable.Node.Auth.{
  ConnectResult, ConnectAnswer, restored, answered, to_call_result, authenticated, admit,
  ask_controller, authenticate, after_restoring,
}

module _ {S Info : Type 0} ⦃e : Eq S⦄ ⦃i : HubSession S⦄ where
  resubscribe_streams_session :
      (streams : List String) (id : String) (n : Node S Info)
      → (resubscribe_streams n id streams).session ≡ n.session
  unfolding resubscribe_streams
  resubscribe_streams_session [] id n = refl
  resubscribe_streams_session (stream ∷ streams) id n =
      resubscribe_streams_session streams id (record n {
        tracked = Tracker.subscribe n.tracked stream;
        hub = subscribe_session n.hub n.session.handle stream id;
      })

  resubscribe_session :
      (channels : Dict String (List String)) (n : Node S Info)
      → (resubscribe n channels).session ≡ n.session
  unfolding resubscribe
  resubscribe_session [] n = refl
  resubscribe_session ((id, streams) ∷ channels) n =
      resubscribe_session channels (resubscribe_streams n id streams)
      ∙ resubscribe_streams_session streams id n

  resume_connected :
      (n : Node S Info) (back : Session S Info) → Session.connected (resume n back).session ≡ true
  unfolding resume send
  resume_connected n back =
      let s : Session S Info = record back { connected = true } in
      let added : Node S Info = record n { session = s; hub = add_session n.hub s.handle } in
      let listening = resubscribe added (to_map s.subscriptions) in
      let done = send listening (welcome (i.get_id s.handle) (channels s.subscriptions)) in
      ap Session.connected (commit_session_rest done).1
      ∙ ap Session.connected (resubscribe_session (to_map s.subscriptions) added)

  -- Sending to the session keeps what decides its caching.
  record Same (n n' : Node S Info) : Type 0 where
    handle : n'.session.handle ≡ n.session.handle
    resumeable : is_resumeable n'.session ≡ is_resumeable n.session
    connected : n'.session.connected ≡ n.session.connected

  transmit-Same : (messages : List String) (n : Node S Info) → Same n (transmit n messages)
  unfolding transmit send is_resumeable
  transmit-Same [] n = record { handle = refl; resumeable = refl; connected = refl }
  transmit-Same (m ∷ ms) n =
      let rest = transmit-Same ms (send n (transmission m)) in
      record { handle = rest.handle; resumeable = rest.resumeable; connected = rest.connected }

  -- The connection's state merged.
  abbrev merged : Node S Info → Option (Dict String String) → Node S Info
  merged n none = n
  merged n (some st) = record n {
    session = record n.session { env = merge_connection_state n.session.env st };
  }

  merged-Same : (n : Node S Info) (st : Option (Dict String String)) → Same n (merged n st)
  unfolding is_resumeable
  merged-Same n none = record { handle = refl; resumeable = refl; connected = refl }
  merged-Same n (some st) = record { handle = refl; resumeable = refl; connected = refl }

  mark_interest-Same :
      (mode : DisconnectMode) (n : Node S Info) (interest : Bool)
      → Same n (mark_interest mode n interest)
  unfolding mark_interest mark_disconnectable is_resumeable
  mark_interest-Same always n interest = record {
    handle = refl;
    resumeable = refl;
    connected = refl;
  }
  mark_interest-Same never n interest = record {
    handle = refl;
    resumeable = refl;
    connected = refl;
  }
  mark_interest-Same auto n interest = record { handle = refl; resumeable = refl; connected = refl }

  handle_call_reply_quiet :
      (now : ℕ) (n : Node S Info) (res : ConnectResult)
      → res.broadcasts ≡ []
      → handle_call_reply now n (to_call_result res)
        ≡ ok (transmit (merged n res.connection_state) res.transmissions)
  unfolding handle_call_reply broadcast_all
  handle_call_reply_quiet now n res quiet =
      ap
        (λ messages. do
          told ← broadcast_all now (merged n res.connection_state) messages
          ok (transmit told res.transmissions))
        quiet

  closed-disconnect_session :
      (now_ms : ℕ) (n : Node S Info) (reason : String)
      → n.session.connected ≡ false
      → Session.closed (disconnect_session now_ms n reason).session ≡ true
  unfolding disconnect_session disconnect_from_node close_session send
  closed-disconnect_session now_ms n reason off = ground (arith, off)

  disconnect_session_cache :
      (now_ms : ℕ) (n : Node S Info) (reason : String)
      → n.session.connected ≡ false
      → (disconnect_session now_ms n reason).cache ≡ n.cache
  unfolding disconnect_session disconnect_from_node close_session send
  disconnect_session_cache now_ms n reason off = ground (arith, off)

  commit_session_cache :
      (n : Node S Info)
      → is_resumeable n.session ≡ true
      → lookup (i.get_id n.session.handle) (commit_session n).cache ≡ some (cached n.session)
  unfolding commit_session
  commit_session_cache n resumeable = ground (
    arith,
    resumeable,
    lookup-insert (i.get_id n.session.handle) (i.get_id n.session.handle) (cached n.session)
        n.cache,
    string_eq.beq_iff (i.get_id n.session.handle) (i.get_id n.session.handle),
  )

  module _ (identify : S → String → S) (mode : DisconnectMode) (now now_ms : ℕ) where
    -- The node as a rejected client leaves it.
    abbrev asked : Node S Info → ConnectResult → Node S Info
    asked n res =
        mark_interest mode (transmit (merged n res.connection_state) res.transmissions)
          res.disconnect_interest

    abbrev rejected : Node S Info → ConnectResult → Node S Info
    rejected n res = disconnect_session now_ms (commit_session (asked n res)) "Auth Failed"

    asked-Same : (n : Node S Info) (res : ConnectResult) → Same n (asked n res)
    asked-Same n res =
        let a = merged-Same n res.connection_state in
        let b = transmit-Same res.transmissions (merged n res.connection_state) in
        let c =
          mark_interest-Same mode (transmit (merged n res.connection_state) res.transmissions)
            res.disconnect_interest in
        record {
          handle = c.handle ∙ b.handle ∙ a.handle;
          resumeable = c.resumeable ∙ b.resumeable ∙ a.resumeable;
          connected = c.connected ∙ b.connected ∙ a.connected;
        }

    rejected_cache :
        (n : Node S Info) (res : ConnectResult)
        → is_resumeable n.session ≡ true
        → n.session.connected ≡ false
        → lookup (i.get_id n.session.handle) (rejected n res).cache
          ≡ some (cached (asked n res).session)
    rejected_cache n res resumeable off =
        let same = asked-Same n res in
        let committed = commit_session (asked n res) in
        let gone : committed.session.connected ≡ false =
          ap Session.connected (commit_session_rest (asked n res)).1 ∙ (same.connected ∙ off) in
        ap (lookup (i.get_id n.session.handle))
          (disconnect_session_cache now_ms committed "Auth Failed" gone)
        ∙ subst (λ h. lookup (i.get_id h) committed.cache ≡ some (cached (asked n res).session))
            same.handle (commit_session_cache (asked n res) (same.resumeable ∙ resumeable))

    admit-rejected :
        (n : Node S Info) (res : ConnectResult)
        → is_success res.status ≡ false
        → res.broadcasts ≡ []
        → admit identify mode now now_ms true n res ≡ ok (rejected n res)
    unfolding admit
    admit-rejected n res unmet quiet =
        let finish = λ (called : Node S Info).
          let committed = commit_session (mark_interest mode called res.disconnect_interest) in
          (if not (is_success res.status) && true
            then disconnect_session now_ms committed "Auth Failed"
            else committed) in
        ap
          (λ (x : Node S Info). do
            called ← handle_call_reply now x (to_call_result res)
            ok (finish called))
          (if_false (is_success res.status) (authenticated identify n res.identifier) n unmet)
        ∙ ap (λ (o : Outcome (Node S Info)). do called ← o; ok (finish called))
            (handle_call_reply_quiet now n res quiet)
        ∙ ap (λ (x : Node S Info). ok x)
            (if_true (not (is_success res.status) && true) _ _ (ground (arith, unmet)))

    authenticate-rejected :
        (n : Node S Info) (res : ConnectResult)
        → n.session.closed ≡ false
        → is_success res.status ≡ false
        → res.broadcasts ≡ []
        → authenticate identify mode now now_ms true n ""
            (record { result = some res; failed = false; closed_meanwhile = false })
          ≡ ok (rejected n res, answered res)
    unfolding authenticate ask_controller try_restore_session
    authenticate-rejected n res still_open unmet quiet =
        let answer : ConnectAnswer = record {
          result = some res;
          failed = false;
          closed_meanwhile = false;
        } in
        let untried : try_restore_session identify n "" ≡ (n, false) = refl in
        let skipped : (if is_resumeable n.session
              then try_restore_session identify n ""
              else (n, false))
            ≡ (n, false) =
          ground (arith, untried) in
        ap (after_restoring identify mode now now_ms true (is_resumeable n.session) answer) skipped
        ∙ if_false (is_resumeable n.session && n.session.closed) _ _ (ground (arith, still_open))
        ∙ if_false (n.session.closed || false) _ _ (ground (arith, still_open))
        ∙ ap (λ (admitted : Outcome (Node S Info)). do n' ← admitted; ok (n', answered res))
            (admit-rejected n res unmet quiet)

    -- What follows a session that was restored, or an error.
    abbrev decide : Node S Info → Option (Session S Info) → Node S Info × Bool
    decide n none = (n, false)
    decide n (some back) = (resume n back, true)

    found-cached :
        (n : Node S Info) (s : Session S Info)
        → n.session.closed ≡ false
        → restore_found identify n (some (cached s))
          ≡ (resume n (restore_entry identify n.session (to_cache_entry s)), true)
    unfolding cached restore_from_cache
    found-cached n s still_open =
        if_false n.session.closed _ _ still_open
        ∙ ap
            (λ o.
              decide n (elim o [
                | none ↦ none
                | some entry ↦ some (restore_entry identify n.session entry)
              ]))
            (unmarshal-marshal (to_cache_entry s))

    -- A client whose session is open, can be resumed, has an id and is not connected, which gives
    -- no earlier session, and that the controller rejects, with nothing to broadcast and where a
    -- failure disconnects, is closed, but its session is cached all the same: a later open session
    -- that can be resumed and gives the id of the first is restored and connected, whatever the
    -- controller would answer this time.
    pub rejected-restored :
        (n : Node S Info) (next : Session S Info) (res : ConnectResult) (answer : ConnectAnswer)
        → is_resumeable n.session ≡ true
        → n.session.connected ≡ false
        → n.session.closed ≡ false
        → is_success res.status ≡ false
        → res.broadcasts ≡ []
        → i.get_id n.session.handle ≢ ""
        → next.closed ≡ false
        → is_resumeable next ≡ true
        → (n' back : Node S Info) × (authenticate identify mode now now_ms true n ""
              (record { result = some res; failed = false; closed_meanwhile = false })
            ≡ ok (n', answered res))
          × (n'.session.closed ≡ true)
          × (authenticate identify mode now now_ms true
                (record n' { session = next })
                (i.get_id n.session.handle)
                answer
              ≡ ok (back, restored))
          × (back.session.connected ≡ true)
    unfolding authenticate try_restore_session
    rejected-restored n next res answer resumeable off still_open unmet quiet named open_again
          again =
        let n' = rejected n res in
        let from : Node S Info = record n' { session = next } in
        let s = (asked n res).session in
        let back = resume from (restore_entry identify next (to_cache_entry s)) in
        let sid = i.get_id n.session.handle in
        let tried : try_restore_session identify from sid ≡ (back, true) =
          if_false (sid == "") _ _ (ground (arith, named, string_eq.beq_iff sid ""))
          ∙ ap (restore_found identify from) (rejected_cache n res resumeable off)
          ∙ found-cached from s open_again in
        (
          n',
          back,
          authenticate-rejected n res still_open unmet quiet,
          closed-disconnect_session now_ms (commit_session (asked n res)) "Auth Failed" (
              ap Session.connected (commit_session_rest (asked n res)).1
              ∙ ((asked-Same n res).connected ∙ off)),
          ap (after_restoring identify mode now now_ms true (is_resumeable next) answer)
              (if_true (is_resumeable next) _ _ again ∙ tried),
          resume_connected from (restore_entry identify next (to_cache_entry s)),
        )
