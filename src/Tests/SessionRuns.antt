-- ===== src/Tests/SessionRuns.antt =====
-- A session's connection: a client that reads too slowly, and a timer that goes off.
use anycable.Prelude.{
  ℕ, suc, ◌≡◌, refl, true, false, Option, none, some, List, [], ◌∷◌, arith, replicate, inl,
}
use anycable.Utils.Queue
use anycable.Utils.Queue.{
  Queue, Item, ◌>>=◌, new_queue, push, remove, wait, set?, copy, copy_at, relocate, resize,
  clear_locked, grow, put_tail, enqueue, take_head, shrink, zero_item,
}
use anycable.Utils.Queue.Invariant.{IsValid, total}
use anycable.Utils.Queue.Ring.{window}
use anycable.Utils.Queue.Refine.{new_queue-IsValid}
use anycable.Session.Timers.{
  SessionTimers, TimerEvent, pong, schedule, new_session_timers, tick, stop,
}
use anycable.Session.Timers.Earliest.{IsScheduled, deadline_of, schedule-earliest}
use anycable.Session.State.{
  text_frame, SentFrame, no_frame, Session, build_session, Message, Encoded, encoded, Output, wrote,
  closed_with, close_normal_closure,
}
use anycable.Session.Frames.{
  write_ok, write_failed, close, disconnect_from_node, write_frame, disconnect_by,
  disconnect_with_message_by, send_frame_within, send_frame, send, disconnect, disconnect_now,
}
use anycable.Session.Frames.Overflow.{IsSent, send_frame-IsSent}
use anycable.Session.Writer.{
  Status, stopped, send_messages, send_round, take_item, handle_item, after_write,
}
use anycable.Session.Writer.Delivery.{Delivered, send_messages-Delivered}
use anycable.Session.Writer.Farewell.{send_frame-farewell}
use anycable.Session.Events.{
  set_timers, handle_timer_event, timer_fires, maybe_disconnect_idle, handle_no_pong, send_ping,
  schedule_ping, schedule_presence, schedule_resumeability,
}
use anycable.Session.Events.Watch.{IsLookedAfter, handle_timer_event-looks_after}

program : Unit {0}
unfolding set? copy copy_at push remove wait Queue.close new_queue relocate resize clear_locked grow
    put_tail enqueue take_head shrink total window schedule tick stop close disconnect_from_node
    write_frame disconnect_by disconnect_with_message_by send_frame_within send_frame send
    disconnect disconnect_now send_messages send_round take_item handle_item after_write
    handle_timer_event timer_fires maybe_disconnect_idle handle_no_pong send_ping schedule_ping
    schedule_presence schedule_resumeability
program = tt

abbrev text : List ℕ → SentFrame
text bytes = record { frame_type = text_frame; payload = bytes; close_code = 0; close_reason = "" }

-- An encoder with one frame for every message.
abbrev encode : Message → Encoded
encode m = encoded (text (7 ∷ []))

abbrev connected : Session
connected = record build_session { connected = true }

connected-IsValid : IsValid no_frame connected.write_queue
connected-IsValid = (new_queue-IsValid no_frame 16 (omega arith)).0

-- Two bytes wait, and no more than two may.
abbrev two_bytes : Item SentFrame
two_bytes = record { size = 2; item_data = text (1 ∷ 2 ∷ []) }

abbrev slow : Session
slow = record connected {
  write_queue = record {
    nodes = two_bytes ∷ replicate 15 (zero_item no_frame);
    head = 0;
    tail = 1;
    cnt = 1;
    size = 2;
    closed = false;
    init_cap = 16;
  };
  max_pending_size = 2;
}

slow-IsValid : IsValid no_frame slow.write_queue
unfolding program
slow-IsValid = inl (
  refl,
  record {
    cap_pos = omega arith;
    ring = record { head_in = omega arith; cnt_le = omega arith; tail_eq = refl };
    weighed = record { small = (omega arith, tt); size_eq = refl };
    dense = λ h. omega arith;
  },
)

send_frame-IsSent_example :
    (after : Session) × (IsSent encode slow (text (3 ∷ [])) after)
    × ((more : ℕ) → send_frame_within encode (suc (suc more)) slow (text (3 ∷ [])) ≡ some after)
send_frame-IsSent_example =
    send_frame-IsSent encode slow (text (3 ∷ [])) (omega arith) (omega arith) slow-IsValid

send_messages-Delivered_example : Delivered (write_ok ∷ write_failed ∷ []) slow
send_messages-Delivered_example =
    send_messages-Delivered (write_ok ∷ write_failed ∷ []) slow slow-IsValid refl

-- What the connection is given.
abbrev output_of : Option (Session × Status) → List Output
output_of none = []
output_of (some (s, status)) = s.output

run_writer : output_of (send_messages (write_ok ∷ write_ok ∷ []) slow) ≡ wrote (1 ∷ 2 ∷ []) ∷ []
unfolding program
run_writer = refl

send_frame-farewell_example :
    (after done : Session) × (send_frame encode slow (text (3 ∷ [])) ≡ some after)
    × (send_messages (write_ok ∷ write_ok ∷ []) after ≡ some (done, stopped))
    × (done.output ≡ wrote (7 ∷ []) ∷ closed_with close_normal_closure "" ∷ [])
unfolding program
send_frame-farewell_example =
    send_frame-farewell encode slow (text (3 ∷ [])) (text (7 ∷ [])) [] (omega arith) (omega arith)
      refl refl slow-IsValid refl

-- A ping at 30 and a pong due by 20.
abbrev timers : SessionTimers
timers = record new_session_timers {
  ping_deadline = 30;
  handshake_deadline = 50;
  pong_deadline = 20;
  timer = some (pong, 20);
}

run_schedule : (schedule timers).timer ≡ some (pong, 20)
unfolding program
run_schedule = refl

schedule-earliest_example :
    IsScheduled (schedule timers) (schedule timers).timer
    × ((ev : TimerEvent) → deadline_of (schedule timers) ev ≡ deadline_of timers ev)
schedule-earliest_example = schedule-earliest timers

handle_timer_event-looks_after_example :
    (after : Session) × (handle_timer_event encode 30 "ms" write_ok write_ok pong
        (set_timers connected timers)
      ≡ some after)
    × IsLookedAfter after
handle_timer_event-looks_after_example =
    handle_timer_event-looks_after encode (λ m. omega arith) 30 "ms" write_ok write_ok pong
      (set_timers connected timers) connected-IsValid refl (λ e. refl)
