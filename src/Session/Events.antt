-- ===== src/Session/Events.antt =====
-- node/session.go: the deadlines a session sets, and what it does when its timer goes off. The clock
-- is an argument, in nanoseconds, and so are what the writes give and the random part of the first
-- ping's delay. `none` is a panic of the queue, which Watch excludes.
pub mod Watch
use anycable.Prelude.{
  ℕ, zero, suc, ◌+◌, ◌-◌, ◌*◌, ◌/◌, ◌%◌, Bool, true, false, ◌&&◌, Option, none, some, List, [], ◌∷◌,
  ◌++◌, String, string_eq, ◌==◌, ltb, nat_beq, if◌then◌else◌,
}
use anycable.Session.Timers.{
  TimerEvent, handshake, presence, expire, ping, pong, SessionTimers, schedule, start, tick,
}
use anycable.Utils.Queue.{◌>>=◌}
use anycable.Session.State.{
  Session, Message, disconnect_message, pong_message, ping_message, Encoded, encoding_failed,
  encoded_nothing, encoded, Output, wrote_ping, close_normal_closure, close_abnormal_closure, Touch,
  touched_presence, touched_session,
}
use anycable.Session.Frames.{
  WriteResult, write_ok, write_timed_out, write_failed, write_frame, send, disconnect,
}

abbrev pub set_timers : Session → SessionTimers → Session
set_timers s st = record s { timers = st }

abbrev pub reschedule : Session → Session
reschedule s = set_timers s (schedule s.timers)

-- `random` is the result of rand.Int63n.
unfoldable pub schedule_initial_ping : ℕ → ℕ → Session → Session
schedule_initial_ping now random s =
    let min_duration = s.ping_interval / 2 in
    let max_duration = s.ping_interval * 3 / 2 in
    let initial_interval = random % (max_duration - min_duration) + min_duration in
    if nat_beq s.ping_interval 0
    then s
    else set_timers s (record s.timers {
      ping_deadline = now + initial_interval;
      pong_deadline =
          if ltb 0 s.pong_timeout
          then now + (s.pong_timeout + initial_interval)
          else s.timers.pong_deadline;
    })

unfoldable pub schedule_ping : ℕ → Session → Session
schedule_ping now s = reschedule (
    set_timers s (record s.timers {
      ping_deadline = now + s.ping_interval;
      pong_deadline =
          if ltb 0 s.pong_timeout && nat_beq s.timers.pong_deadline 0
          then now + s.pong_timeout
          else s.timers.pong_deadline;
    }))

unfoldable pub schedule_resumeability : ℕ → Session → Session
schedule_resumeability now s =
    if ltb 0 s.resume_interval
    then set_timers s (record s.timers { resume_deadline = now + s.resume_interval })
    else s

unfoldable pub schedule_presence : ℕ → Session → Session
schedule_presence now s =
    if ltb 0 s.presence_interval
    then set_timers s (record s.timers { presence_deadline = now + s.presence_interval })
    else s

unfoldable pub start_timers : ℕ → ℕ → Session → Session
unfolding schedule_initial_ping schedule_resumeability schedule_presence start
start_timers now random s =
    let s = schedule_initial_ping now random s in
    let s = schedule_resumeability now s in
    let s = schedule_presence now s in set_timers s (start s.timers)

-- A message from the client came in.
unfoldable pub keepalive : Session → Session
keepalive s =
    if ltb 0 s.timers.pong_deadline
    then reschedule (set_timers s (record s.timers { pong_deadline = 0 }))
    else s

unfoldable pub reset_pong : Session → Session
reset_pong s =
    if ltb 0 s.timers.pong_deadline
    then reschedule
        (set_timers s (record s.timers { pong_deadline = s.timers.pong_deadline + s.pong_timeout }))
    else s

-- `newPingMessage`, from the clock's nanoseconds.
abbrev pub new_ping_message : String → ℕ → Message
new_ping_message format now =
    if format == "ns"
    then ping_message now
    else if format == "ms"
    then ping_message (now / 1000000)
    else ping_message (now / 1000000000)

-- The ping message written, and whether there was an error.
abbrev pub write_ping : WriteResult → Session → Encoded → Session × Bool
write_ping result s encoding_failed = (s, true)
write_ping result s encoded_nothing = (s, false)
write_ping result s (encoded f) =
    let (s', r) = write_frame result s f in
    (s', elim r [ write_ok ↦ false | write_timed_out ↦ true | write_failed ↦ true ])

-- The result of the native ping, where there is one, is the one that counts.
abbrev pub write_native_ping : WriteResult → Session × Bool → Session × Bool
write_native_ping native (s, failed) =
    if s.send_native_ping
    then (elim native [
      | write_ok ↦ (record s { output = s.output ++ wrote_ping ∷ [] }, false)
      | write_timed_out ↦ (s, true)
      | write_failed ↦ (s, true)
    ])
    else (s, failed)

module _ (encode : Message → Encoded) where
  unfoldable pub maybe_disconnect_idle : Session → Option Session
  maybe_disconnect_idle s =
      let s' = set_timers s (record s.timers { handshake_deadline = 0 }) in
      if s.connected then some (reschedule s') else (do
        told ← send encode s' (disconnect_message "idle_timeout" false)
        disconnect encode told "Idle Timeout" close_normal_closure)

  unfoldable pub handle_no_pong : Session → Option Session
  handle_no_pong s =
      if s.connected
      then (do
        told ← send encode s (disconnect_message "no_pong" true)
        disconnect encode told "No Pong" close_normal_closure)
      else some s

  unfoldable pub handle_client_ping : Session → Option Session
  handle_client_ping s = send encode s pong_message

  unfoldable pub send_ping : ℕ → String → WriteResult → WriteResult → Session → Option Session
  unfolding schedule_ping
  send_ping now precision result native s =
      let message = encode (new_ping_message precision now) in
      let pinged = write_native_ping native (write_ping result s message) in
      if s.closed
      then some s
      else if pinged.1
      then disconnect encode pinged.0 "Ping failed" close_abnormal_closure
      else some (schedule_ping now pinged.0)

  unfoldable pub handle_timer_event :
      ℕ → String → WriteResult → WriteResult → TimerEvent → Session → Option Session
  unfolding maybe_disconnect_idle handle_no_pong send_ping schedule_presence schedule_resumeability
  handle_timer_event now precision result native ev s = if s.closed then some s else elim ev [
    | handshake ↦ maybe_disconnect_idle s
    | presence ↦ some (
        reschedule
          (schedule_presence now (record s { touches = s.touches ++ touched_presence ∷ [] })))
    | expire ↦ some (
        reschedule
          (schedule_resumeability now (record s { touches = s.touches ++ touched_session ∷ [] })))
    | ping ↦ send_ping now precision result native s
    | pong ↦ handle_no_pong s
  ]

  -- The timer goes off.
  unfoldable pub timer_fires : ℕ → String → WriteResult → WriteResult → Session → Option Session
  unfolding tick handle_timer_event
  timer_fires now precision result native s =
      let (st, due) = tick s.timers in
      elim due [
        | none ↦ some s
        | some ev ↦ handle_timer_event now precision result native ev (set_timers s st)
      ]
