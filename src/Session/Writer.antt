-- ===== src/Session/Writer.antt =====
-- node/session.go, `SendMessages`: the routine that writes the queued frames, one round at a time. What
-- each write gives is an argument. A round that finds the queue empty leaves the routine waiting.
pub mod Delivery
pub mod Farewell
use anycable.Prelude.{ℕ, Bool, true, false, Option, none, some, List, [], ◌∷◌, if◌then◌else◌}
use anycable.Utils.Queue
use anycable.Utils.Queue.{Queue, Item, WaitResult, returns, blocks, ◌>>=◌}
use anycable.Session.State.{
  FrameType, text_frame, close_frame, binary_frame, unknown_frame, SentFrame, no_frame,
  close_normal_closure, close_abnormal_closure, Session,
}
use anycable.Session.Frames.{
  WriteResult, write_ok, write_timed_out, write_failed, counter_add, write_frame, disconnect_now,
}

pub data Status : Type 0 where
  running waiting stopped : Status

abbrev pub is_close_frame : SentFrame → Bool
is_close_frame f = elim f.frame_type [ close_frame ↦ true | _ ↦ false ]

-- What the routine does with the session and the error that writing a data frame gave.
unfoldable pub after_write : Session × WriteResult → Session × Status
unfolding disconnect_now
after_write (s, write_ok) = (
  record s { metrics = record s.metrics { sent_msg = counter_add s.metrics.sent_msg 1 } },
  running,
)
after_write (s, write_timed_out) = (
  disconnect_now
      (record s {
        metrics = record s.metrics {
          write_timeout = counter_add s.metrics.write_timeout 1;
          failed_sent = counter_add s.metrics.failed_sent 1;
        };
      })
      "Write Failed" close_abnormal_closure,
  stopped,
)
after_write (s, write_failed) = (
  disconnect_now
      (record s {
        metrics = record s.metrics { failed_sent = counter_add s.metrics.failed_sent 1 };
      })
      "Write Failed" close_abnormal_closure,
  stopped,
)

unfoldable pub handle_item : WriteResult → Session → SentFrame → Session × Status
unfolding after_write write_frame
handle_item result s f =
    let written = write_frame result s f in
    if is_close_frame f
    then (disconnect_now written.0 "Close frame sent" close_normal_closure, stopped)
    else after_write written

unfoldable pub take_item : WriteResult → Session → Option (Session × Status)
unfolding handle_item
take_item result s = do
  (queue, item) ← Queue.remove no_frame s.write_queue
  let s' : Session = record s { write_queue = queue }
  elim item [ none ↦ some (s', stopped) | some i ↦ some (handle_item result s' i.item_data) ]

unfoldable pub send_round : WriteResult → Session → Option (Session × Status)
unfolding take_item
send_round result s = elim (Queue.wait no_frame s.write_queue) [
  | blocks ↦ some (s, waiting)
  | returns open_still ↦ if open_still then take_item result s else some (s, stopped)
]

-- The rounds of the loop, one for each result.
unfoldable pub send_messages : List WriteResult → Session → Option (Session × Status)
unfolding send_round
send_messages [] s = some (s, running)
send_messages (result ∷ results) s = do
  (s', status) ← send_round result s
  elim status [
    | running ↦ send_messages results s'
    | waiting ↦ some (s', waiting)
    | stopped ↦ some (s', stopped)
  ]
