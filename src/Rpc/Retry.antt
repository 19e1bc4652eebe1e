-- ===== src/Rpc/Retry.antt =====
-- rpc/rpc.go, `retry`: a call to the application is made again, after a delay, while the application
-- is not available or has no capacity left. What each round meets is an argument; the clock is in
-- nanoseconds since the first call.
pub mod Delays
pub mod Ends
pub mod Counters
use anycable.Prelude.{
  ℕ, zero, suc, ◌+◌, ◌-◌, ◌*◌, ◌/◌, ◌%◌, ◌^◌, Bool, true, false, not, ◌&&◌, ◌||◌, Option, none,
  some, if◌then◌else◌, ltb, uint64,
}

-- Codes of the status of an error; `another` is any other code.
pub data Code : Type 0 where
  resource_exhausted : Code
  unavailable : Code
  deadline_exceeded : Code
  another : Code

-- An error of a call: the context was cancelled, an error with a status, or one without.
pub data CallError : Type 0 where
  context_canceled : CallError
  status : Code → CallError
  no_status : CallError

-- What `retry` fails with: the connection is not ready, an error as it came, and an error that was
-- seen before the cancellation or the end of the context.
pub data RetryError : Type 0 where
  not_ready : RetryError
  failed : CallError → RetryError
  canceled_retrying : CallError → RetryError
  retry_interrupted : CallError → RetryError

pub data Answer (A : Type 0) : Type 0 where
  answered : A → Answer A
  erred : CallError → Answer A

-- Counters of events; their overflow at 2^64 is left out.
pub record Metrics : Type 0 where
  pub pending : ℕ
  pub calls : ℕ
  pub retries : ℕ
  pub failures : ℕ
  pub timeouts : ℕ
  pub canceled : ℕ

-- What one round meets: whether the connection is ready, the answer and the time it takes, and
-- whether the context ends before the delay for another reason than the timeout. When the timeout
-- and the delay end at once, Go takes either; this is `interrupted` too.
pub record Round (A : Type 0) : Type 0 where
  pub ready : Bool
  pub answer : Answer A
  pub duration : ℕ
  pub interrupted : Bool

-- The variables of the loop, with the clock.
pub record Attempts : Type 0 where
  pub attempt : ℕ
  pub was_exhausted : Bool
  pub last_seen : Option CallError
  pub now : ℕ
  pub metrics : Metrics

pub data Retried (A : Type 0) : Type 0 where
  responded : A → Retried A
  gave_up : RetryError → Retried A

pub data Progress (A : Type 0) : Type 0 where
  ended : Retried A → Metrics → Progress A
  again : Attempts → Progress A

abbrev pub millisecond : ℕ
millisecond = 1000000

abbrev pub is_exhausted : Code → Bool
is_exhausted resource_exhausted = true
is_exhausted _ = false

abbrev pub is_timeout : Code → Bool
is_timeout deadline_exceeded = true
is_timeout _ = false

abbrev pub is_retryable : Code → Bool
is_retryable resource_exhausted = true
is_retryable unavailable = true
is_retryable _ = false

-- retryExhaustedInterval and retryUnavailableInterval.
abbrev pub interval : Bool → ℕ
interval true = 10
interval false = 100

-- A duration is a signed 64-bit number; a timer with a negative one goes off at once. `huge` is what
-- the conversion of a float gives that is too large for an int64: it depends on the processor.
unfoldable pub delay : ℕ → ℕ → Bool → ℕ
delay huge attempt exhausted =
    let power = if ltb attempt 63 then 2 ^ attempt else huge in
    let duration = power * interval exhausted * millisecond % uint64 in
    if ltb duration (2 ^ 63) then duration else 0

abbrev pub count_timeout : Metrics → Code → Metrics
count_timeout m code = if is_timeout code then record m { timeouts = suc m.timeouts } else m

abbrev pub count_retry : Metrics → Metrics
count_retry m = record m { retries = suc m.retries }

-- The counter starts anew when the reason changes.
abbrev pub counted : Attempts → Bool → ℕ
counted s exhausted =
    if exhausted
    then (if s.was_exhausted then s.attempt else 0)
    else if s.was_exhausted
    then 0
    else s.attempt

-- Whether the deadline of the command comes before a time; a timeout of zero sets none.
abbrev pub times_out : ℕ → ℕ → Bool
times_out timeout time = ltb 0 timeout && ltb timeout time

module _ {A : Type 0} (huge timeout : ℕ) where
  -- The delay after an error that is worth another try.
  unfoldable pub wait_delay : Attempts → Code → Bool → Progress A
  wait_delay s code interrupted =
      let exhausted = is_exhausted code in
      let attempt = counted s exhausted in
      let metrics = count_retry s.metrics in
      let later = s.now + delay huge attempt exhausted in
      if interrupted || times_out timeout later
      then ended (gave_up (retry_interrupted (status code))) metrics
      else again (record {
        attempt = suc attempt;
        was_exhausted = exhausted;
        last_seen = some (status code);
        now = later;
        metrics = metrics;
      })

  unfoldable pub handle_error : Attempts → CallError → Bool → Progress A
  unfolding wait_delay
  handle_error s context_canceled interrupted = elim s.last_seen [
    | none ↦ ended (gave_up (failed context_canceled)) s.metrics
    | some seen ↦ ended (gave_up (canceled_retrying seen)) s.metrics
  ]
  handle_error s no_status interrupted = ended (gave_up (failed no_status)) s.metrics
  handle_error s (status code) interrupted =
      let metrics = count_timeout s.metrics code in
      if is_retryable code
      then wait_delay (record s { metrics = metrics }) code interrupted
      else ended (gave_up (failed (status code))) metrics

  -- What a round does when the connection is ready.
  unfoldable pub called : Attempts → Answer A → ℕ → Bool → Progress A
  unfolding handle_error
  called s (answered a) duration interrupted = ended (responded a) s.metrics
  called s (erred e) duration interrupted =
      handle_error (record s { now = s.now + duration }) e interrupted

  unfoldable pub retry_round : Attempts → Round A → Progress A
  unfolding called
  retry_round s r =
      if not r.ready
      then ended (gave_up not_ready) s.metrics
      else called s r.answer r.duration r.interrupted

  -- The rounds from the given one on, at most `fuel`; `none` is a loop that still runs.
  unfoldable pub retry_loop : ℕ → (ℕ → Round A) → ℕ → Attempts → Option (Retried A × Metrics)
  unfolding retry_round
  retry_loop zero rounds i s = none
  retry_loop (suc fuel) rounds i s = elim (retry_round s (rounds i)) [
    | ended result metrics ↦ some (result, metrics)
    | again s' ↦ retry_loop fuel rounds (suc i) s'
  ]

  unfoldable pub retry : ℕ → (ℕ → Round A) → Metrics → Option (Retried A × Metrics)
  unfolding retry_loop
  retry fuel rounds metrics =
      retry_loop fuel rounds 0 (record {
        attempt = 0;
        was_exhausted = false;
        last_seen = none;
        now = 0;
        metrics = metrics;
      })
