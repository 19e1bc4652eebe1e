-- ===== src/Rpc/Retry/Ends.antt =====
-- rpc/rpc.go, `retry`: a command that has a timeout is not retried for ever.
use anycable.Prelude.{
  ℕ, zero, suc, ◌+◌, ◌*◌, ◌/◌, ◌^◌, ◌≤◌, ◌<◌, ◌≡◌, refl, Bool, true, false, not, ◌||◌, Option, none,
  some, arith, if_true, if_false, Bool-cases, inl, inr, ◌∙◌, ap, subst, sym, ◌⊎◌,
}
use anycable.Rpc.Retry.{
  Answer, Code, CallError, context_canceled, no_status, status, Attempts, Progress, ended, again,
  delay, is_exhausted, count_retry, count_timeout, times_out, counted, Round, answered, erred,
  called, wait_delay, handle_error, retry_round, retry_loop, retry, Metrics, Retried, is_retryable,
}
use anycable.Rpc.Retry.Delays.{unit, delay-unit, pow_positive}

-- The delays so far have taken as much time as the counter tells.
abbrev IsGrown : Attempts → Type 0
IsGrown s = 2 ^ s.attempt * unit s.was_exhausted ≤ s.now + unit s.was_exhausted

counted-IsGrown : (s : Attempts) (e : Bool) → IsGrown s → 2 ^ counted s e * unit e ≤ s.now + unit e
counted-IsGrown s true grown = ground (arith, grown)
counted-IsGrown s false grown = ground (arith, grown)

abbrev pub HasTime : ℕ → Type 0
HasTime timeout = (0 < timeout) × (timeout + unit false < 2 ^ 63)

-- What goes on has waited for ten milliseconds at least, and has time left.
record Continues (timeout : ℕ) (s s' : Attempts) : Type 0 where
  grown : IsGrown s'
  later : s.now + unit true ≤ s'.now
  in_time : s'.now ≤ timeout

-- The delay of the next try, when the deadline comes after it.
delay-counted :
    (huge timeout : ℕ) (s : Attempts) (e : Bool)
    → HasTime timeout
    → IsGrown s
    → s.now + delay huge (counted s e) e ≤ timeout
    → delay huge (counted s e) e ≡ 2 ^ counted s e * unit e
delay-counted huge timeout s true time grown le =
    let most = counted-IsGrown s true grown in
    delay-unit huge (counted s true) true (omega (arith, most, time.1))
delay-counted huge timeout s false time grown le =
    let most = counted-IsGrown s false grown in
    delay-unit huge (counted s false) false (omega (arith, most, time.1))

-- The loop's variables after a delay.
abbrev waited : ℕ → Attempts → Code → Attempts
waited huge s code = record {
  attempt = suc (counted s (is_exhausted code));
  was_exhausted = is_exhausted code;
  last_seen = some (status code);
  now = s.now + delay huge (counted s (is_exhausted code)) (is_exhausted code);
  metrics = count_retry s.metrics;
}

doubled :
    (c now d : ℕ) (e : Bool)
    → 2 ^ c * unit e ≤ now + unit e
    → d ≡ 2 ^ c * unit e
    → 2 ^ suc c * unit e ≤ now + d + unit e
doubled c now d true most same = omega (arith, most, same)
doubled c now d false most same = omega (arith, most, same)

at_least : (c : ℕ) (e : Bool) → unit e ≤ 2 ^ c * unit e
at_least c true = omega (arith, pow_positive c)
at_least c false = omega (arith, pow_positive c)

unit_least : (e : Bool) → unit true ≤ unit e
unit_least true = omega arith
unit_least false = omega arith

waited-Continues :
    (huge timeout : ℕ) (s : Attempts) (code : Code)
    → HasTime timeout
    → IsGrown s
    → s.now + delay huge (counted s (is_exhausted code)) (is_exhausted code) ≤ timeout
    → Continues timeout s (waited huge s code)
waited-Continues huge timeout s code time grown le =
    let e = is_exhausted code in
    let exact = delay-counted huge timeout s e time grown le in
    record {
      grown =
          doubled (counted s e) s.now (delay huge (counted s e) e) e (counted-IsGrown s e grown)
            exact;
      later = omega (arith, exact, at_least (counted s e) e, unit_least e);
      in_time = le;
    }

module _ {A : Type 0} (huge timeout : ℕ) where
  abbrev next : Progress A → Attempts → Attempts
  next (ended result metrics) s = s
  next (again s') s = s'

  wait_delay-Continues :
      (s s' : Attempts) (code : Code) (interrupted : Bool)
      → HasTime timeout
      → IsGrown s
      → wait_delay {A = A} huge timeout s code interrupted ≡ again s'
      → Continues timeout s s'
  unfolding wait_delay
  wait_delay-Continues s s' code interrupted time grown e =
      let later = s.now + delay huge (counted s (is_exhausted code)) (is_exhausted code) in
      elim (Bool-cases (interrupted || times_out timeout later)) [
        | (inl stops) ↦ ground (arith, stops, e)
        | (inr goes) ↦
            let le : later ≤ timeout = ground (arith, goes, time.0) in
            let same : waited huge s code ≡ s' =
              ap (λ p. next p s)
                (sym (if_false (interrupted || times_out timeout later) _ _ goes) ∙ e) in
            subst (Continues timeout s) same (waited-Continues huge timeout s code time grown le)
      ]

  handle_error-Continues :
      (s s' : Attempts) (e : CallError) (interrupted : Bool)
      → HasTime timeout
      → IsGrown s
      → handle_error {A = A} huge timeout s e interrupted ≡ again s'
      → Continues timeout s s'
  unfolding handle_error
  handle_error-Continues s s' context_canceled interrupted time grown eq = ground (arith, eq)
  handle_error-Continues s s' no_status interrupted time grown eq = ground (arith, eq)
  handle_error-Continues s s' (status code) interrupted time grown eq =
      elim (Bool-cases (is_retryable code)) [
        | (inl tries) ↦
            let counting : Attempts = record s { metrics = count_timeout s.metrics code } in
            let c =
              wait_delay-Continues counting s' code interrupted time grown
                (sym (if_true (is_retryable code) _ _ tries) ∙ eq) in
            record { grown = c.grown; later = c.later; in_time = c.in_time }
        | (inr gives_up) ↦ ground (arith, gives_up, eq)
      ]

  called-Continues :
      (s s' : Attempts) (answer : Answer A) (duration : ℕ) (interrupted : Bool)
      → HasTime timeout
      → IsGrown s
      → called huge timeout s answer duration interrupted ≡ again s'
      → Continues timeout s s'
  unfolding called
  called-Continues s s' (answered a) duration interrupted time grown eq = ground (arith, eq)
  called-Continues s s' (erred e) duration interrupted time grown eq =
      let c =
        handle_error-Continues (record s { now = s.now + duration }) s' e interrupted time
          (omega (arith, grown)) eq in
      record { grown = c.grown; later = omega (arith, c.later); in_time = c.in_time }

  retry_round-Continues :
      (s s' : Attempts) (r : Round A)
      → HasTime timeout
      → IsGrown s
      → retry_round huge timeout s r ≡ again s'
      → Continues timeout s s'
  unfolding retry_round
  retry_round-Continues s s' r time grown eq = elim (Bool-cases r.ready) [
    | (inr off) ↦ ground (arith, off, eq)
    | (inl on) ↦
        called-Continues s s' r.answer r.duration r.interrupted time grown
          (sym (if_false (not r.ready) _ _ (ground (arith, on))) ∙ eq)
  ]

  Progress-cases :
      (p : Progress A)
      → ((result : Retried A) × (metrics : Metrics) × (p ≡ ended result metrics))
        ⊎ ((s : Attempts) × (p ≡ again s))
  Progress-cases (ended result metrics) = inl (result, metrics, refl)
  Progress-cases (again s) = inr (s, refl)

  abbrev go_on : ℕ → (ℕ → Round A) → ℕ → Progress A → Option (Retried A × Metrics)
  go_on fuel rounds i (ended result metrics) = some (result, metrics)
  go_on fuel rounds i (again s) = retry_loop huge timeout fuel rounds (suc i) s

  retry_loop-ends :
      (fuel i : ℕ) (rounds : ℕ → Round A) (s : Attempts)
      → HasTime timeout
      → IsGrown s
      → s.now ≤ timeout
      → timeout < s.now + fuel * unit true
      → (answer : Retried A × Metrics) × (retry_loop huge timeout fuel rounds i s ≡ some answer)
  unfolding retry_loop
  retry_loop-ends zero i rounds s time grown le short = ground (arith, le, short)
  retry_loop-ends (suc fuel) i rounds s time grown le short =
      elim (Progress-cases (retry_round huge timeout s (rounds i))) [
        | (inl (result, metrics, e)) ↦ ((result, metrics), ap (go_on fuel rounds i) e)
        | (inr (s', e)) ↦
            let c = retry_round-Continues s s' (rounds i) time grown e in
            let (answer, rest) =
              retry_loop-ends fuel (suc i) rounds s' time c.grown c.in_time
                (omega (arith, c.later, short)) in
            (answer, ap (go_on fuel rounds i) e ∙ rest)
      ]

  -- A command with a timeout, of less than 2^63 nanoseconds less a tenth of a second, is retried no
  -- more after one round more than the timeout has hundredths of a second, whatever the calls
  -- answer and however long they take.
  pub retry-ends :
      (fuel : ℕ) (rounds : ℕ → Round A) (metrics : Metrics)
      → 0 < timeout
      → timeout + unit false < 2 ^ 63
      → timeout / unit true < fuel
      → (answer : Retried A × Metrics) × (retry huge timeout fuel rounds metrics ≡ some answer)
  unfolding retry
  retry-ends fuel rounds metrics positive short enough =
      retry_loop-ends fuel 0 rounds
        (record {
          attempt = 0;
          was_exhausted = false;
          last_seen = none;
          now = 0;
          metrics = metrics;
        })
        (positive, short) (omega arith) (omega arith) (omega (arith, enough))
