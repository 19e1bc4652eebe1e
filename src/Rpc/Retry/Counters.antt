-- ===== src/Rpc/Retry/Counters.antt =====
-- rpc/rpc.go, `retry`: it counts retries and timeouts, and no other counter.
use anycable.Prelude.{
  ℕ, zero, suc, ◌+◌, ◌≡◌, refl, Bool, true, false, not, ◌||◌, Option, none, some, arith,
  if◌then◌else◌, if_true, if_false, Bool-cases, inl, inr, ◌∙◌, subst, sym,
}
use anycable.Rpc.Retry.{
  Answer, Code, resource_exhausted, unavailable, deadline_exceeded, another, is_exhausted,
  CallError, context_canceled, no_status, status, failed, gave_up, canceled_retrying, not_ready,
  Attempts, Progress, ended, again, count_retry, count_timeout, times_out, is_retryable, delay,
  counted, Round, answered, erred, called, wait_delay, handle_error, retry_round, retry_loop, retry,
  Metrics, Retried,
}

pub record Keeps (m m' : Metrics) : Type 0 where
  pub pending : m'.pending ≡ m.pending
  pub calls : m'.calls ≡ m.calls
  pub failures : m'.failures ≡ m.failures
  pub canceled : m'.canceled ≡ m.canceled

same : (m : Metrics) → Keeps m m
same m = record { pending = refl; calls = refl; failures = refl; canceled = refl }

then_keeps : {a b c : Metrics} → Keeps a b → Keeps b c → Keeps a c
then_keeps k l = record {
  pending = l.pending ∙ k.pending;
  calls = l.calls ∙ k.calls;
  failures = l.failures ∙ k.failures;
  canceled = l.canceled ∙ k.canceled;
}

count_timeout-Keeps : (m : Metrics) (code : Code) → Keeps m (count_timeout m code)
count_timeout-Keeps m deadline_exceeded = record {
  pending = refl;
  calls = refl;
  failures = refl;
  canceled = refl;
}
count_timeout-Keeps m resource_exhausted = same m
count_timeout-Keeps m unavailable = same m
count_timeout-Keeps m another = same m

module _ (A : Type 0) (huge timeout : ℕ) where
  abbrev counters : Progress A → Metrics
  counters (ended result metrics) = metrics
  counters (again s) = s.metrics

  either-Keeps :
      (b : Bool) (m : Metrics) (p q : Progress A)
      → Keeps m (counters p)
      → Keeps m (counters q)
      → Keeps m (counters (if b then p else q))
  either-Keeps true m p q k l = k
  either-Keeps false m p q k l = l

  wait_delay-Keeps :
      (s : Attempts) (code : Code) (interrupted : Bool)
      → Keeps s.metrics (counters (wait_delay {A = A} huge timeout s code interrupted))
  unfolding wait_delay
  wait_delay-Keeps s code interrupted =
      let later = s.now + delay huge (counted s (is_exhausted code)) (is_exhausted code) in
      let k : Keeps s.metrics (count_retry s.metrics) = record {
        pending = refl;
        calls = refl;
        failures = refl;
        canceled = refl;
      } in
      elim (Bool-cases (interrupted || times_out timeout later)) [
        | (inl stops) ↦ subst (λ p. Keeps s.metrics (counters p)) (sym (if_true _ _ _ stops)) k
        | (inr goes) ↦ subst (λ p. Keeps s.metrics (counters p)) (sym (if_false _ _ _ goes)) k
      ]

  -- What a cancelled call ends with.
  abbrev cancelled : Attempts → Option CallError → Progress A
  cancelled s none = ended (gave_up (failed context_canceled)) s.metrics
  cancelled s (some seen) = ended (gave_up (canceled_retrying seen)) s.metrics

  cancelled-Keeps :
      (s : Attempts) (seen : Option CallError) → Keeps s.metrics (counters (cancelled s seen))
  cancelled-Keeps s none = same s.metrics
  cancelled-Keeps s (some seen) = same s.metrics

  handle_error-Keeps :
      (s : Attempts) (e : CallError) (interrupted : Bool)
      → Keeps s.metrics (counters (handle_error {A = A} huge timeout s e interrupted))
  unfolding handle_error
  handle_error-Keeps s context_canceled interrupted = cancelled-Keeps s s.last_seen
  handle_error-Keeps s no_status interrupted = same s.metrics
  handle_error-Keeps s (status code) interrupted =
      let counting : Attempts = record s { metrics = count_timeout s.metrics code } in
      let k = count_timeout-Keeps s.metrics code in
      either-Keeps (is_retryable code) s.metrics (wait_delay huge timeout counting code interrupted)
        (ended (gave_up (failed (status code))) counting.metrics)
        (then_keeps k (wait_delay-Keeps counting code interrupted)) k

  called-Keeps :
      (s : Attempts) (answer : Answer A) (duration : ℕ) (interrupted : Bool)
      → Keeps s.metrics (counters (called huge timeout s answer duration interrupted))
  unfolding called
  called-Keeps s (answered a) duration interrupted = same s.metrics
  called-Keeps s (erred e) duration interrupted =
      handle_error-Keeps (record s { now = s.now + duration }) e interrupted

  retry_round-Keeps :
      (s : Attempts) (r : Round A) → Keeps s.metrics (counters (retry_round huge timeout s r))
  unfolding retry_round
  retry_round-Keeps s r =
      either-Keeps (not r.ready) s.metrics (ended (gave_up not_ready) s.metrics)
        (called huge timeout s r.answer r.duration r.interrupted) (same s.metrics)
        (called-Keeps s r.answer r.duration r.interrupted)

  abbrev go_on : ℕ → (ℕ → Round A) → ℕ → Progress A → Option (Retried A × Metrics)
  go_on fuel rounds i (ended result metrics) = some (result, metrics)
  go_on fuel rounds i (again s) = retry_loop huge timeout fuel rounds i s

  go_on-Keeps :
      (fuel i : ℕ) (rounds : ℕ → Round A) (p : Progress A) (m : Metrics)
      (answer : Retried A × Metrics)
      → ((s : Attempts)
          → retry_loop huge timeout fuel rounds i s ≡ some answer
          → Keeps s.metrics answer.1)
      → Keeps m (counters p)
      → go_on fuel rounds i p ≡ some answer
      → Keeps m answer.1
  go_on-Keeps fuel i rounds (ended result metrics) m answer rest k e =
      subst (Keeps m) (ground (arith, e)) k
  go_on-Keeps fuel i rounds (again s) m answer rest k e = then_keeps k (rest s e)

  retry_loop-Keeps :
      (fuel i : ℕ) (rounds : ℕ → Round A) (s : Attempts) (answer : Retried A × Metrics)
      → retry_loop huge timeout fuel rounds i s ≡ some answer
      → Keeps s.metrics answer.1
  unfolding retry_loop
  retry_loop-Keeps zero i rounds s answer e = ground (arith, e)
  retry_loop-Keeps (suc fuel) i rounds s answer e =
      go_on-Keeps fuel (suc i) rounds (retry_round huge timeout s (rounds i)) s.metrics answer
        (λ s' e'. retry_loop-Keeps fuel (suc i) rounds s' answer e')
        (retry_round-Keeps s (rounds i)) e

  pub retry-Keeps :
      (fuel : ℕ) (rounds : ℕ → Round A) (m : Metrics) (answer : Retried A × Metrics)
      → retry huge timeout fuel rounds m ≡ some answer
      → Keeps m answer.1
  unfolding retry
  retry-Keeps fuel rounds m answer e =
      retry_loop-Keeps fuel 0 rounds
        (record { attempt = 0; was_exhausted = false; last_seen = none; now = 0; metrics = m })
        answer e
