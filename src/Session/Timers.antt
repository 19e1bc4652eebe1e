-- ===== src/Session/Timers.antt =====
-- node/session.go, `SessionTimers`: one timer for five deadlines. Times are in nanoseconds, and a
-- deadline of 0 is unset. `timer` is the event the timer will give to the handler and when, `none`
-- while no timer runs.
pub mod Earliest
use anycable.Prelude.{
  ℕ, Bool, true, false, ◌&&◌, ◌||◌, Option, none, some, ltb, nat_beq, if◌then◌else◌,
}

pub data TimerEvent : Type 0 where
  handshake presence expire ping pong : TimerEvent

pub record SessionTimers : Type 0 where
  pub ping_deadline : ℕ
  pub handshake_deadline : ℕ
  pub pong_deadline : ℕ
  pub resume_deadline : ℕ
  pub presence_deadline : ℕ
  pub timer : Option (TimerEvent × ℕ)

abbrev pub new_session_timers : SessionTimers
new_session_timers = record {
  ping_deadline = 0;
  handshake_deadline = 0;
  pong_deadline = 0;
  resume_deadline = 0;
  presence_deadline = 0;
  timer = none;
}

-- One of the steps that `schedule` repeats: `ev` and `delay` so far, and the next deadline.
abbrev pub consider : TimerEvent → ℕ → Option (TimerEvent × ℕ) → Option (TimerEvent × ℕ)
consider ev deadline none = if ltb 0 deadline then some (ev, deadline) else none
consider ev deadline (some (old, delay)) =
    if ltb 0 deadline && (nat_beq delay 0 || ltb deadline delay)
    then some (ev, deadline)
    else some (old, delay)

unfoldable pub schedule : SessionTimers → SessionTimers
schedule st =
    let ev = consider ping st.ping_deadline none in
    let ev = consider handshake st.handshake_deadline ev in
    let ev = consider pong st.pong_deadline ev in
    let ev = consider expire st.resume_deadline ev in
    let ev = consider presence st.presence_deadline ev in record st { timer = ev }

-- `Start`, with a handler that the model applies to the timer's event.
unfoldable pub start : SessionTimers → SessionTimers
unfolding schedule
start st = schedule st

unfoldable pub stop : SessionTimers → SessionTimers
stop st = record st { timer = none }

-- The timer goes off: what it had is gone with it.
unfoldable pub tick : SessionTimers → SessionTimers × Option TimerEvent
tick st = elim st.timer [ none ↦ (st, none) | some due ↦ (record st { timer = none }, some due.0) ]
