-- ===== src/Rpc/Calls/Accounts.antt =====
-- rpc/rpc.go, `Controller`: what a call leaves of the barrier and of the counters.
use anycable.Prelude.{
  ℕ, suc, ◌+◌, ◌-◌, ◌/◌, ◌^◌, ◌≤◌, ◌<◌, ◌≡◌, refl, ap, ◌∙◌, Bool, true, false, Option, none, some,
  String, arith, if◌then◌else◌, if_true, if_false, Bool-cases, inl, inr, ltb,
}
use anycable.Node.Replies.{CommandResult}
use anycable.Rpc.Barrier.{FixedSizeBarrier, acquire, release}
use anycable.Rpc.Protocol.{CommandMessage, CommandResponse, parse_command_response}
use anycable.Rpc.Retry.{RetryError, Metrics, Round, Retried, responded, gave_up}
use anycable.Rpc.Retry.Ends.{HasTime, retry-ends}
use anycable.Rpc.Retry.Counters.{retry-Keeps}
use anycable.Rpc.Retry.Delays.{unit}
use anycable.Rpc.Calls.{
  Controller, Reported, nothing, replied, refused, Called, returned, blocked, retrying, enter,
  leave, with_ticket, count_canceled, count_call, count_failure, is_canceled, parse_response,
  run_retry, command,
}

-- One when the call reports an error of its own.
abbrev pub failures_of : {A : Type 0} → Reported A → ℕ
failures_of nothing = 0
failures_of (replied a e) = 0
failures_of (refused e) = 1

-- The ticket is given back and nothing is pending any more; the command counts as a call or as a
-- cancellation, and as a failure when it reports one.
pub record IsSettled {A : Type 0} (c c' : Controller) (r : Reported A) : Type 0 where
  pub barrier : c'.barrier ≡ c.barrier
  pub pending : c'.metrics.pending ≡ c.metrics.pending
  pub counted : c'.metrics.calls + c'.metrics.canceled ≡ suc (c.metrics.calls + c.metrics.canceled)
  pub failed : c'.metrics.failures ≡ c.metrics.failures + failures_of r

abbrev taken : FixedSizeBarrier → FixedSizeBarrier
taken b = record b { sem = b.sem - 1 }

abbrev entered : Controller → Controller
entered c = record c {
  barrier = taken c.barrier;
  metrics = record c.metrics { pending = suc c.metrics.pending - 1 };
}

take_back : (sem : ℕ) → 0 < sem → suc (sem - 1) ≡ sem
take_back sem some_left = omega arith

acquire_free : (b : FixedSizeBarrier) → 0 < b.sem → acquire b ≡ some (taken b)
unfolding acquire
acquire_free b free = ground (arith, free)

release-taken : (b : FixedSizeBarrier) → 0 < b.sem → b.sem ≤ b.capacity → release (taken b) ≡ some b
unfolding release
release-taken b free room =
    if_true (ltb (b.sem - 1) b.capacity) _ _ (ground (arith, free, room))
    ∙ ap (λ sem. some (record b { sem = sem })) (take_back b.sem free)

enter_free : (c : Controller) → 0 < c.barrier.sem → enter c ≡ some (entered c)
unfolding enter
enter_free c free =
    ap
      (λ (o : Option FixedSizeBarrier). elim o [
        | none ↦ none
        | some b ↦ some (record c {
          barrier = b;
          metrics = record c.metrics { pending = suc c.metrics.pending - 1 };
        })
      ])
      (acquire_free c.barrier free)

module _ {A : Type 0} where
  abbrev give_back : Controller → Reported A → Option FixedSizeBarrier → Called A
  give_back c r none = blocked
  give_back c r (some b) = returned (record c { barrier = b }) r

  leave-taken :
      (c c' : Controller) (r : Reported A)
      → 0 < c.barrier.sem
      → c.barrier.sem ≤ c.barrier.capacity
      → c'.barrier ≡ taken c.barrier
      → leave c' r ≡ returned (record c' { barrier = c.barrier }) r
  unfolding leave
  leave-taken c c' r free room e =
      ap (give_back c' r) (ap release e ∙ release-taken c.barrier free room)

  -- What the call's own part does to the controller and to the counters.
  record IsBody (c c' : Controller) (r : Reported A) : Type 0 where
    barrier : c'.barrier ≡ c.barrier
    pending : c'.metrics.pending ≡ c.metrics.pending
    counted : c'.metrics.calls + c'.metrics.canceled ≡ suc (c.metrics.calls + c.metrics.canceled)
    failed : c'.metrics.failures ≡ c.metrics.failures + failures_of r

  abbrev conclude :
      Controller
      → Bool
      → (Controller → Option (Controller × Reported A))
      → Option Controller
      → Called A
  conclude c context_done body none = blocked
  conclude c context_done body (some inside) =
      if context_done
      then leave (count_canceled inside) nothing
      else elim (body inside) [ none ↦ retrying | some done ↦ leave done.0 done.1 ]

  abbrev finish : Option (Controller × Reported A) → Called A
  finish none = retrying
  finish (some done) = leave done.0 done.1

  with_ticket-IsSettled :
      (c : Controller) (context_done : Bool) (body : Controller → Option (Controller × Reported A))
      (c' : Controller) (r : Reported A)
      → 0 < c.barrier.sem
      → c.barrier.sem ≤ c.barrier.capacity
      → body (entered c) ≡ some (c', r)
      → IsBody (entered c) c' r
      → (after : Controller) × (reported : Reported A) × (with_ticket c context_done body
          ≡ returned after reported)
        × IsSettled c after reported
  unfolding with_ticket
  with_ticket-IsSettled c true body c' r free room e k = (
    record (count_canceled (entered c)) { barrier = c.barrier },
    nothing,
    ap (conclude c true body) (enter_free c free)
        ∙ leave-taken c (count_canceled (entered c)) nothing free room refl,
    record { barrier = refl; pending = omega arith; counted = omega arith; failed = omega arith },
  )
  with_ticket-IsSettled c false body c' r free room e k = (
    record c' { barrier = c.barrier },
    r,
    ap (conclude c false body) (enter_free c free)
        ∙ ap finish e
        ∙ leave-taken c c' r free room k.barrier,
    record {
      barrier = refl;
      pending = omega (arith, k.pending);
      counted = k.counted;
      failed = k.failed;
    },
  )

module _ (decorated : RetryError → Bool) {Reply A : Type 0}
    (parse : Reply → A × Option String) where
  parse_response-IsBody :
      (c : Controller) (res : Retried Reply)
      → (c' : Controller) × (r : Reported A) × (parse_response decorated parse c res ≡ (c', r))
        × IsBody c c' r
  unfolding parse_response
  parse_response-IsBody c (responded reply) = (
    count_call c,
    replied (parse reply).0 (parse reply).1,
    refl,
    record { barrier = refl; pending = refl; counted = omega arith; failed = omega arith },
  )
  parse_response-IsBody c (gave_up e) = elim (Bool-cases (is_canceled decorated e)) [
    | (inl cancelled) ↦ (
      count_canceled c,
      nothing,
      if_true _ _ _ cancelled,
      record { barrier = refl; pending = refl; counted = omega arith; failed = omega arith },
    )
    | (inr lost) ↦ (
      count_failure (count_call c),
      refused e,
      if_false _ _ _ lost,
      record { barrier = refl; pending = refl; counted = omega arith; failed = omega arith },
    )
  ]

  abbrev finished : Controller → Option (Retried Reply × Metrics) → Option (Controller × Reported A)
  finished c none = none
  finished c (some answer) =
      some (parse_response decorated parse (record c { metrics = answer.1 }) answer.0)

  run_retry-IsBody :
      (huge fuel : ℕ) (rounds : ℕ → Round Reply) (c : Controller)
      → HasTime c.command_timeout
      → c.command_timeout / unit true < fuel
      → (c' : Controller) × (r : Reported A) × (run_retry decorated huge fuel
            (parse_response decorated parse)
            rounds
            c
          ≡ some (c', r))
        × IsBody c c' r
  unfolding run_retry
  run_retry-IsBody huge fuel rounds c time enough =
      let (answer, ends) =
        retry-ends huge c.command_timeout fuel rounds c.metrics time.0 time.1 enough in
      let k = retry-Keeps Reply huge c.command_timeout fuel rounds c.metrics answer ends in
      let (c', r, e, b) = parse_response-IsBody (record c { metrics = answer.1 }) answer.0 in
      (
        c',
        r,
        ap (finished c) ends ∙ ap (λ (x : Controller × Reported A). some x) e,
        record {
          barrier = b.barrier;
          pending = b.pending ∙ k.pending;
          counted = omega (arith, b.counted, k.calls, k.canceled);
          failed = omega (arith, b.failed, k.failures);
        },
      )

-- When there is a ticket and the timeout of commands is not zero (and below 2^63 nanoseconds less a
-- tenth of a second), a command to the application ends, whatever the client meets and whether or
-- not the context of the session has ended: its ticket is back in the barrier, it is no longer
-- pending, and it is counted once, as a call or as a cancellation, and as a failure exactly when it
-- returns an error without a result.
pub command-IsSettled :
    {Info : Type 0} (decorated : RetryError → Bool) (huge fuel : ℕ) (decode : String → Option Info)
    (of_string : String → Info) (client : CommandMessage → ℕ → Round CommandResponse)
    (c : Controller) (context_done : Bool) (msg : CommandMessage)
    → 0 < c.barrier.sem
    → c.barrier.sem ≤ c.barrier.capacity
    → 0 < c.command_timeout
    → c.command_timeout + unit false < 2 ^ 63
    → c.command_timeout / unit true < fuel
    → (c' : Controller) × (r : Reported (CommandResult Info)) × (command decorated huge fuel decode
          of_string client c context_done msg
        ≡ returned c' r)
      × IsSettled c c' r
unfolding command
command-IsSettled decorated huge fuel decode of_string client c context_done msg free room positive
      short enough =
    let parse = parse_command_response decode of_string in
    let (c', r, e, b) =
      run_retry-IsBody decorated parse huge fuel (client msg) (entered c) (positive, short)
        enough in
    with_ticket-IsSettled c context_done
      (run_retry decorated huge fuel (parse_response decorated parse) (client msg)) c' r free room e
      b
