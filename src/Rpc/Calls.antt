-- ===== src/Rpc/Calls.antt =====
-- rpc/rpc.go, `Controller`: the calls to the application. Each waits for a ticket of the barrier and
-- gives it back at its end. What the client meets in each round of a call is an argument (`client`),
-- as is what the error library says of a decorated error (`decorated`).
pub mod Accounts
pub mod Waiting
use anycable.Prelude.{
  ℕ, zero, suc, ◌-◌, ltb, Bool, true, false, Option, none, some, List, String, if◌then◌else◌,
}
use anycable.Prelude.Dict.{Dict}
use anycable.Common.Env.{SessionEnv}
use anycable.Node.Replies.{CommandResult}
use anycable.Node.Auth.{ConnectResult}
use anycable.Rpc.Barrier.{FixedSizeBarrier, acquire, release}
use anycable.Rpc.Protocol.{
  Env, ConnectionResponse, CommandResponse, DisconnectResponse, CommandMessage, DisconnectRequest,
  new_connect_message, new_command_message, new_disconnect_message, parse_connect_response,
  parse_command_response, parse_disconnect_response,
}
use anycable.Rpc.Retry.{
  CallError, context_canceled, RetryError, failed, not_ready, canceled_retrying, retry_interrupted,
  Metrics, Round, answered, erred, no_status, Retried, responded, gave_up, retry,
}

pub record Controller : Type 0 where
  pub barrier : FixedSizeBarrier
  -- In nanoseconds.
  pub command_timeout : ℕ
  pub metrics : Metrics

-- What a call returns: two nils, a result with the error that its parser gives, or an error alone.
pub data Reported (A : Type 0) : Type 0 where
  nothing : Reported A
  replied : A → Option String → Reported A
  refused : RetryError → Reported A

-- A call that waits for a ticket, one that is still retried, and one that has returned.
pub data Called (A : Type 0) : Type 0 where
  blocked : Called A
  retrying : Called A
  returned : Controller → Reported A → Called A

-- GaugeIncrement, Acquire, GaugeDecrement.
unfoldable pub enter : Controller → Option Controller
enter c = elim (acquire c.barrier) [
  | none ↦ none
  | some b ↦
      let waiting = suc c.metrics.pending in
      some (record c { barrier = b; metrics = record c.metrics { pending = waiting - 1 } })
]

unfoldable pub leave : {A : Type 0} → Controller → Reported A → Called A
leave c r = elim (release c.barrier) [
  | none ↦ blocked
  | some b ↦ returned (record c { barrier = b }) r
]

abbrev pub count_call : Controller → Controller
count_call c = record c { metrics = record c.metrics { calls = suc c.metrics.calls } }

abbrev pub count_canceled : Controller → Controller
count_canceled c = record c { metrics = record c.metrics { canceled = suc c.metrics.canceled } }

abbrev pub count_failure : Controller → Controller
count_failure c = record c { metrics = record c.metrics { failures = suc c.metrics.failures } }

-- What each call does around its own part: `context_done` is whether the session's context has ended
-- once the call has its ticket.
unfoldable pub with_ticket :
    {A : Type 0} → Controller → Bool → (Controller → Option (Controller × Reported A)) → Called A
unfolding enter leave
with_ticket c context_done body = elim (enter c) [
  | none ↦ blocked
  | some entered ↦
      if context_done
      then leave (count_canceled entered) nothing
      else elim (body entered) [ none ↦ retrying | some done ↦ leave done.0 done.1 ]
]

module _ (decorated : RetryError → Bool) where
  -- errors.Is(err, context.Canceled)
  abbrev pub is_canceled : RetryError → Bool
  is_canceled (failed context_canceled) = true
  is_canceled (failed e) = false
  is_canceled not_ready = false
  is_canceled (canceled_retrying e) = decorated (canceled_retrying e)
  is_canceled (retry_interrupted e) = decorated (retry_interrupted e)

  module _ {Reply A : Type 0} where
    -- What follows the retries of a connect and of a disconnect.
    unfoldable pub connect_result :
        (Reply → A × Option String) → Controller → Retried Reply → Controller × Reported A
    connect_result parse c (responded reply) = (c, replied (parse reply).0 (parse reply).1)
    connect_result parse c (gave_up e) =
        if is_canceled e then (count_canceled c, nothing) else (count_failure c, refused e)

    unfoldable pub parse_response :
        (Reply → A × Option String) → Controller → Retried Reply → Controller × Reported A
    parse_response parse c (responded reply) =
        (count_call c, replied (parse reply).0 (parse reply).1)
    parse_response parse c (gave_up e) =
        if is_canceled e
        then (count_canceled c, nothing)
        else (count_failure (count_call c), refused e)

  -- The error of the reply is the error of the disconnection.
  unfoldable pub disconnect_result :
      Controller → Retried DisconnectResponse → Controller × Reported DisconnectResponse
  disconnect_result c (responded reply) = elim (parse_disconnect_response reply) [
    | none ↦ (c, replied reply none)
    | some e ↦ (count_failure c, replied reply (some e))
  ]
  disconnect_result c (gave_up e) =
      if is_canceled e then (count_canceled c, nothing) else (count_failure c, refused e)

  -- `huge` and `fuel` are those of `retry`.
  module _ (huge fuel : ℕ) where
    unfoldable pub run_retry :
        {Reply A : Type 0}
        → (Controller → Retried Reply → Controller × Reported A)
        → (ℕ → Round Reply)
        → Controller
        → Option (Controller × Reported A)
    run_retry finish rounds c = elim (retry huge c.command_timeout fuel rounds c.metrics) [
      | none ↦ none
      | some answer ↦ some (finish (record c { metrics = answer.1 }) answer.0)
    ]

    unfoldable pub authenticate :
        (Env → ℕ → Round ConnectionResponse) → Controller → Bool → SessionEnv → Called ConnectResult
    unfolding with_ticket run_retry connect_result
    authenticate client c context_done env = with_ticket c context_done (λ entered.
        run_retry (connect_result parse_connect_response) (client (new_connect_message env))
          (count_call entered))

    unfoldable pub disconnect :
        (DisconnectRequest → ℕ → Round DisconnectResponse)
        → (Dict String String → String)
        → Controller
        → Bool
        → SessionEnv
        → String
        → List String
        → Called DisconnectResponse
    unfolding with_ticket run_retry disconnect_result
    disconnect client encode c context_done env id subscriptions =
        with_ticket c context_done (λ entered.
          run_retry disconnect_result (client (new_disconnect_message encode env id subscriptions))
            (count_call entered))

    module _ {Info : Type 0} (decode : String → Option Info) (of_string : String → Info)
        (client : CommandMessage → ℕ → Round CommandResponse) where
      unfoldable pub command : Controller → Bool → CommandMessage → Called (CommandResult Info)
      unfolding with_ticket run_retry parse_response
      command c context_done msg =
          with_ticket c context_done
            (run_retry (parse_response (parse_command_response decode of_string)) (client msg))

      unfoldable pub subscribe :
          Controller → Bool → SessionEnv → String → String → Called (CommandResult Info)
      unfolding command
      subscribe c context_done env id channel =
          command c context_done (new_command_message env "subscribe" channel id "")

      unfoldable pub unsubscribe :
          Controller → Bool → SessionEnv → String → String → Called (CommandResult Info)
      unfolding command
      unsubscribe c context_done env id channel =
          command c context_done (new_command_message env "unsubscribe" channel id "")

      unfoldable pub perform :
          Controller → Bool → SessionEnv → String → String → String → Called (CommandResult Info)
      unfolding command
      perform c context_done env id channel content =
          command c context_done (new_command_message env "message" channel id content)

-- What waiting for the calls that run meets: how many run, from `busy`, in a round of `retry`.
abbrev pub busy_round : (ℕ → Bool) → (ℕ → ℕ) → ℕ → Round Bool
busy_round ready busy i = record {
  ready = ready i;
  answer = if ltb 0 (busy i) then erred no_status else answered true;
  duration = 0;
  interrupted = false;
}

abbrev pub error_of : Retried Bool → Option RetryError
error_of (responded b) = none
error_of (gave_up e) = some e

-- The error that Shutdown returns, with the counters. The client's state is there (it is nil only before
-- Start), and closing it is left out.
unfoldable pub shutdown :
    ℕ → ℕ → (ℕ → Bool) → (ℕ → ℕ) → Controller → Option (Option RetryError × Metrics)
shutdown huge fuel ready busy c =
    elim (retry huge c.command_timeout fuel (busy_round ready busy) c.metrics) [
      | none ↦ none
      | some answer ↦ some (error_of answer.0, answer.1)
    ]
