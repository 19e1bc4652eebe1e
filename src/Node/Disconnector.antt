-- ===== src/Node/Disconnector.antt =====
-- node/disconnect_queue.go: the queue of sessions whose end the application is told of at a limited
-- rate, and one by one at shutdown. Callers of Enqueue, the routine of Run and the one of Shutdown
-- take turns in any order; an event that cannot happen in a state gives `none`.
pub mod Rate
pub mod Ledger
pub mod Late
use anycable.Prelude.{
  ℕ, zero, suc, ◌+◌, ◌/◌, Bool, true, false, Option, none, some, List, [], ◌∷◌, ◌++◌, if◌then◌else◌,
  ltb, nat_beq, length, not, ◌&&◌,
}

-- 1000 / config.Rate milliseconds; Go panics when it divides by zero.
unfoldable pub rate_duration : ℕ → Option ℕ
rate_duration rate = if nat_beq rate 0 then none else some (1000 / rate)

-- time.NewTicker, which panics when the interval is not positive.
abbrev pub new_ticker : ℕ → Option ℕ
new_ticker duration = if ltb 0 duration then some duration else none

pub record DisconnectQueue (S : Type 0) : Type 0 where
  -- Callers of Enqueue that found the queue open and have not sent yet.
  pub admitted : List S
  -- The channel, with room for `backlog`.
  pub disconnect : List S
  pub backlog : ℕ
  -- What Run took out and waits with for the ticker.
  pub in_hand : Option S
  pub running : Bool
  -- A value in the channel `shutdown`.
  pub signalled : Bool
  pub draining : Bool
  pub is_stopped : Bool
  -- The sessions of the calls of DisconnectNow, and those that Enqueue dropped.
  pub told : List S
  pub dropped : List S

pub data Event (S : Type 0) : Type 0 where
  enqueues : S → Event S
  sends : Event S
  takes : Event S
  ticks : Event S
  returns : Event S
  stops : Event S
  drains : Event S
  finishes : Event S
  times_out : Event S

module _ {S : Type 0} where
  unfoldable pub new_disconnect_queue : ℕ → DisconnectQueue S
  new_disconnect_queue backlog = record {
    admitted = [];
    disconnect = [];
    backlog = backlog;
    in_hand = none;
    running = true;
    signalled = false;
    draining = false;
    is_stopped = false;
    told = [];
    dropped = [];
  }

  -- Enqueue up to its send, and the send, which waits for room.
  unfoldable pub check_open : DisconnectQueue S → S → DisconnectQueue S
  check_open d s =
      if d.is_stopped
      then record d { dropped = d.dropped ++ s ∷ [] }
      else record d { admitted = d.admitted ++ s ∷ [] }

  unfoldable pub send : DisconnectQueue S → Option (DisconnectQueue S)
  send d = elim d.admitted [
    | [] ↦ none
    | s ∷ rest ↦
        if ltb (length d.disconnect) d.backlog
        then some (record d { admitted = rest; disconnect = d.disconnect ++ s ∷ [] })
        else none
  ]

  -- Run: it takes a session, tells of it at the next tick, or returns.
  unfoldable pub take : DisconnectQueue S → Option (DisconnectQueue S)
  take d = elim d.disconnect [
    | [] ↦ none
    | s ∷ rest ↦ elim d.in_hand [
      | some held ↦ none
      | none ↦ if d.running then some (record d { disconnect = rest; in_hand = some s }) else none
    ]
  ]

  unfoldable pub tell : DisconnectQueue S → Option (DisconnectQueue S)
  tell d = elim d.in_hand [
    | none ↦ none
    | some s ↦ some (record d { in_hand = none; told = d.told ++ s ∷ [] })
  ]

  unfoldable pub return_run : DisconnectQueue S → Option (DisconnectQueue S)
  return_run d = elim d.in_hand [
    | some held ↦ none
    | none ↦
        if d.running && d.signalled
        then some (record d { running = false; signalled = false })
        else none
  ]

  -- Shutdown: a second call returns at once.
  unfoldable pub stop : DisconnectQueue S → DisconnectQueue S
  stop d =
      if d.is_stopped
      then d
      else record d { is_stopped = true; signalled = true; draining = ltb 0 (length d.disconnect) }

  unfoldable pub drain : DisconnectQueue S → Option (DisconnectQueue S)
  drain d = elim d.disconnect [
    | [] ↦ none
    | s ∷ rest ↦
        if d.draining then some (record d { disconnect = rest; told = d.told ++ s ∷ [] }) else none
  ]

  unfoldable pub finish : DisconnectQueue S → Option (DisconnectQueue S)
  finish d = elim d.disconnect [
    | s ∷ rest ↦ none
    | [] ↦ if d.draining then some (record d { draining = false }) else none
  ]

  unfoldable pub time_out : DisconnectQueue S → Option (DisconnectQueue S)
  time_out d = if d.draining then some (record d { draining = false }) else none

  unfoldable pub step : DisconnectQueue S → Event S → Option (DisconnectQueue S)
  unfolding check_open send take tell return_run stop drain finish time_out
  step d (enqueues s) = some (check_open d s)
  step d sends = send d
  step d takes = take d
  step d ticks = tell d
  step d returns = return_run d
  step d stops = some (stop d)
  step d drains = drain d
  step d finishes = finish d
  step d times_out = time_out d

  unfoldable pub run : DisconnectQueue S → List (Event S) → Option (DisconnectQueue S)
  unfolding step
  run d [] = some d
  run d (event ∷ events) = elim (step d event) [ none ↦ none | some d' ↦ run d' events ]
