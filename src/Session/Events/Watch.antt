-- ===== src/Session/Events/Watch.antt =====
-- node/session.go: after the timer went off, the session is closed or its timer runs again, but for one
-- case, in which it never does.
use anycable.Prelude.{
  uint64, ℕ, zero, ◌+◌, ◌<◌, ◌≡◌, ◌⊎◌, inl, inr, ◌∙◌, Bool, true, false, Option, some, [], ◌∷◌,
  ◌++◌, String, arith, refl, ltb, nat_beq, ◌&&◌, sym, subst, if_true, if_false, length,
  if◌then◌else◌, Bool-cases,
}
use anycable.Utils.Queue.Invariant.{IsValid}
use anycable.Utils.Queue.{◌>>=◌}
use anycable.Session.Timers.{TimerEvent, handshake, presence, expire, ping, pong}
use anycable.Session.Timers.Earliest.{IsScheduled, schedule-earliest}
use anycable.Session.State.{
  SentFrame, no_frame, close_frame_of, close_normal_closure, close_abnormal_closure,
  disconnect_message, Session, Message, touched_presence, touched_session, Encoded, encoding_failed,
  encoded_nothing, encoded,
}
use anycable.Session.Frames.{
  WriteResult, write_frame, send_encoded, send_frame, send, disconnect, disconnect_by, close,
  disconnect_from_node,
}
use anycable.Session.Frames.Overflow.{IsSmallEncoded, send_frame-IsSent}
use anycable.Session.Events.{
  set_timers, reschedule, new_ping_message, write_ping, write_native_ping, send_ping,
  maybe_disconnect_idle, handle_no_pong, handle_timer_event, schedule_ping, schedule_presence,
  schedule_resumeability,
}

-- The session's one timer runs, to the earliest deadline there is.
abbrev pub IsWatched : Session → Type 0
IsWatched s = IsScheduled s.timers s.timers.timer

reschedule-IsWatched : (s : Session) → IsWatched (reschedule s)
reschedule-IsWatched s = (schedule-earliest s.timers).0

schedule_ping-IsWatched : (now : ℕ) (s : Session) → IsWatched (schedule_ping now s)
unfolding schedule_ping
schedule_ping-IsWatched now s =
    (schedule-earliest (record s.timers {
      ping_deadline = now + s.ping_interval;
      pong_deadline =
          if ltb 0 s.pong_timeout && nat_beq s.timers.pong_deadline 0
          then now + s.pong_timeout
          else s.timers.pong_deadline;
    })).0

-- Closed, or watched by its timer.
abbrev pub IsLookedAfter : Session → Type 0
IsLookedAfter s = (s.closed ≡ true) ⊎ IsWatched s

-- Writing leaves the queue alone.
write_frame_queue :
    (result : WriteResult) (s : Session) (f : SentFrame)
    → Session.write_queue (write_frame result s f).0 ≡ s.write_queue
unfolding write_frame
write_frame_queue result s f = ground arith

write_ping_queue :
    (result : WriteResult) (s : Session) (m : Encoded)
    → Session.write_queue (write_ping result s m).0 ≡ s.write_queue
write_ping_queue result s encoding_failed = refl
write_ping_queue result s encoded_nothing = refl
write_ping_queue result s (encoded f) = write_frame_queue result s f

native_ping_queue :
    (native : WriteResult) (pinged : Session × Bool)
    → Session.write_queue (write_native_ping native pinged).0 ≡ Session.write_queue pinged.0
native_ping_queue native (s, failed) = ground arith

pinged_queue :
    (result native : WriteResult) (s : Session) (m : Encoded)
    → Session.write_queue (write_native_ping native (write_ping result s m)).0 ≡ s.write_queue
pinged_queue result native s m =
    native_ping_queue native (write_ping result s m) ∙ write_ping_queue result s m

module _ (encode : Message → Encoded)
    (small : (m : Message) → IsSmallEncoded encode (encode m)) where
  send_frame-returns :
      (s : Session) (f : SentFrame)
      → length f.payload < uint64
      → IsValid no_frame s.write_queue
      → (after : Session) × (send_frame encode s f ≡ some after)
        × IsValid no_frame after.write_queue
  unfolding send_frame
  send_frame-returns s f fits v =
      let (after, sent, runs) = send_frame-IsSent encode s f fits (small _) v in
      (after, runs zero, sent.valid)

  send_encoded-returns :
      (s : Session) (m : Encoded)
      → IsSmallEncoded encode m
      → IsValid no_frame s.write_queue
      → (after : Session) × (send_encoded (send_frame encode) s m ≡ some after)
        × IsValid no_frame after.write_queue
  send_encoded-returns s encoding_failed fits v = (s, refl, v)
  send_encoded-returns s encoded_nothing fits v = (s, refl, v)
  send_encoded-returns s (encoded f) fits v = send_frame-returns s f fits v

  disconnect-closes :
      (s : Session) (reason : String) (code : ℕ)
      → IsValid no_frame s.write_queue
      → (after : Session) × (disconnect encode s reason code ≡ some after)
        × (after.closed ≡ true)
        × (after.connected ≡ false)
  unfolding disconnect disconnect_by close disconnect_from_node
  disconnect-closes s reason code v =
      let (sent, ok, w) = send_frame-returns s (close_frame_of reason code) (omega arith) v in
      (disconnect_from_node (close sent), rw ok refl, ground arith, refl)

  -- A message sent, and the session disconnected.
  tell-closes :
      (s : Session) (m : Message) (reason : String) (code : ℕ)
      → IsValid no_frame s.write_queue
      → (after : Session) × ((do told ← send encode s m; disconnect encode told reason code)
          ≡ some after)
        × (after.closed ≡ true)
  unfolding send
  tell-closes s m reason code v =
      let (told, sent, w) = send_encoded-returns s (encode m) (small m) v in
      let (after, left, ended, gone) = disconnect-closes told reason code w in
      (after, rw (sent, left) refl, ended)

  -- What the handling of an event ends in.
  abbrev Ends : Option Session → Type 0
  Ends result = (after : Session) × (result ≡ some after) × IsLookedAfter after

  maybe_disconnect_idle-Ends :
      (s : Session) → IsValid no_frame s.write_queue → Ends (maybe_disconnect_idle encode s)
  unfolding maybe_disconnect_idle
  maybe_disconnect_idle-Ends s v =
      let s' = set_timers s (record s.timers { handshake_deadline = 0 }) in
      elim (Bool-cases s.connected) [
        | (inl e) ↦ (reschedule s', if_true s.connected _ _ e, inr (reschedule-IsWatched s'))
        | (inr e) ↦
            let (after, done, ended) =
              tell-closes s' (disconnect_message "idle_timeout" false) "Idle Timeout"
                close_normal_closure v in
            (after, if_false s.connected _ _ e ∙ done, inl ended)
      ]

  handle_no_pong-Ends :
      (s : Session)
      → IsValid no_frame s.write_queue
      → s.connected ≡ true
      → Ends (handle_no_pong encode s)
  unfolding handle_no_pong
  handle_no_pong-Ends s v e =
      let (after, done, ended) =
        tell-closes s (disconnect_message "no_pong" true) "No Pong" close_normal_closure v in
      (after, if_true s.connected _ _ e ∙ done, inl ended)

  send_ping-Ends :
      (now : ℕ) (precision : String) (result native : WriteResult) (s : Session)
      → s.closed ≡ false
      → IsValid no_frame s.write_queue
      → Ends (send_ping encode now precision result native s)
  unfolding send_ping
  send_ping-Ends now precision result native s e v =
      let message = encode (new_ping_message precision now) in
      let pinged = write_native_ping native (write_ping result s message) in
      let w = subst (IsValid no_frame) (sym (pinged_queue result native s message)) v in
      elim (Bool-cases pinged.1) [
        | (inl f) ↦
            let (after, done, ended, gone) =
              disconnect-closes pinged.0 "Ping failed" close_abnormal_closure w in
            (after, if_false s.closed _ _ e ∙ (if_true pinged.1 _ _ f ∙ done), inl ended)
        | (inr f) ↦ (
          schedule_ping now pinged.0,
          if_false s.closed _ _ e ∙ if_false pinged.1 _ _ f,
          inr (schedule_ping-IsWatched now pinged.0),
        )
      ]

  -- Whatever event the timer of an open session gives, on a well formed queue and with messages
  -- that encode to fewer than 2^64 bytes, handling it never panics, and the session is closed
  -- afterwards or its timer runs again, to the earliest of its deadlines: except when the pong
  -- deadline passes before the session is connected.
  pub handle_timer_event-looks_after :
      (now : ℕ) (precision : String) (result native : WriteResult) (ev : TimerEvent) (s : Session)
      → IsValid no_frame s.write_queue
      → s.closed ≡ false
      → (ev ≡ pong → s.connected ≡ true)
      → (after : Session) × (handle_timer_event encode now precision result native ev s
          ≡ some after)
        × IsLookedAfter after
  unfolding handle_timer_event
  handle_timer_event-looks_after now precision result native handshake s v e on =
      let (after, done, kept) = maybe_disconnect_idle-Ends s v in
      (after, if_false s.closed _ _ e ∙ done, kept)
  handle_timer_event-looks_after now precision result native presence s v e on =
      let renewed =
        schedule_presence now (record s { touches = s.touches ++ touched_presence ∷ [] }) in
      (reschedule renewed, if_false s.closed _ _ e, inr (reschedule-IsWatched renewed))
  handle_timer_event-looks_after now precision result native expire s v e on =
      let renewed =
        schedule_resumeability now (record s { touches = s.touches ++ touched_session ∷ [] }) in
      (reschedule renewed, if_false s.closed _ _ e, inr (reschedule-IsWatched renewed))
  handle_timer_event-looks_after now precision result native ping s v e on =
      let (after, done, kept) = send_ping-Ends now precision result native s e v in
      (after, if_false s.closed _ _ e ∙ done, kept)
  handle_timer_event-looks_after now precision result native pong s v e on =
      let (after, done, kept) = handle_no_pong-Ends s v (on refl) in
      (after, if_false s.closed _ _ e ∙ done, kept)
