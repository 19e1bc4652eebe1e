-- ===== src/Node/Disconnector/Ledger.antt =====
-- node/disconnect_queue.go: where each session is that was given to the queue.
use anycable.Prelude.{
  ℕ, ◌+◌, ◌≡◌, refl, sym, ap, Bool, true, false, ◌&&◌, Option, none, some, List, [], ◌∷◌, ◌++◌,
  arith, if◌then◌else◌, ltb, length, Eq, ◌==◌,
}
use anycable.Node.Disconnector.{
  DisconnectQueue, Event, enqueues, sends, takes, ticks, returns, stops, drains, finishes,
  times_out, new_disconnect_queue, check_open, send, take, tell, return_run, stop, drain, finish,
  time_out, step, run,
}

abbrev pub one : Bool → ℕ
one true = 1
one false = 0

module _ {S : Type 0} ⦃e : Eq S⦄ where
  -- How often a session is in a list, and in a place for one.
  unfoldable pub count : S → List S → ℕ
  count s [] = 0
  count s (x ∷ xs) = one (x == s) + count s xs

  abbrev pub held : S → Option S → ℕ
  held s none = 0
  held s (some x) = one (x == s)

  abbrev pub in_all : S → DisconnectQueue S → ℕ
  in_all s d =
      count s d.admitted
      + count s d.disconnect
      + held s d.in_hand
      + count s d.told
      + count s d.dropped

  abbrev pub enqueued : S → Event S → ℕ
  enqueued s (enqueues x) = one (x == s)
  enqueued s _ = 0

  abbrev pub enqueued_in : S → List (Event S) → ℕ
  enqueued_in s [] = 0
  enqueued_in s (event ∷ events) = enqueued s event + enqueued_in s events

  count-append : (s : S) (xs : List S) (x : S) → count s (xs ++ x ∷ []) ≡ count s xs + one (x == s)
  unfolding count
  count-append s [] x = omega arith
  count-append s (y ∷ xs) x = omega (arith, count-append s xs x)

  -- Where every session is after a step: no less and no more often than before and with the step.
  abbrev Accounts : S → ℕ → Option (DisconnectQueue S) → Type 0
  Accounts s total none = total ≡ total
  Accounts s total (some d) = in_all s d ≡ total

  guarded-Accounts :
      (s : S) (total : ℕ) (b : Bool) (d : DisconnectQueue S)
      → in_all s d ≡ total
      → Accounts s total (if b then some d else none)
  guarded-Accounts s total true d e = e
  guarded-Accounts s total false d e = refl

  send-Accounts : (s : S) (d : DisconnectQueue S) → Accounts s (in_all s d) (send d)
  unfolding send count
  send-Accounts s d =
      elim d.admitted
        as (λ waiting.
          Accounts s (in_all s (record d { admitted = waiting }))
            (send (record d { admitted = waiting }))) [
              | [] ↦ refl
              | x ∷ rest ↦
                  guarded-Accounts s _ (ltb (length d.disconnect) d.backlog)
                    (record d { admitted = rest; disconnect = d.disconnect ++ x ∷ [] })
                    (omega (arith, count-append s d.disconnect x))
            ]

  take-Accounts : (s : S) (d : DisconnectQueue S) → Accounts s (in_all s d) (take d)
  unfolding take count
  take-Accounts s d =
      elim d.disconnect
        as (λ queue.
          Accounts s (in_all s (record d { disconnect = queue }))
            (take (record d { disconnect = queue }))) [
              | [] ↦ refl
              | x ∷ rest ↦
                  elim d.in_hand
                    as (λ hand.
                      Accounts s (in_all s (record d { disconnect = x ∷ rest; in_hand = hand }))
                        (take (record d { disconnect = x ∷ rest; in_hand = hand }))) [
                          | some y ↦ refl
                          | none ↦
                              guarded-Accounts s _ d.running
                                (record d { disconnect = rest; in_hand = some x }) (omega arith)
                        ]
            ]

  tell-Accounts : (s : S) (d : DisconnectQueue S) → Accounts s (in_all s d) (tell d)
  unfolding tell
  tell-Accounts s d =
      elim d.in_hand
        as (λ hand.
          Accounts s (in_all s (record d { in_hand = hand }))
            (tell (record d { in_hand = hand }))) [
              | none ↦ refl
              | some x ↦ omega (arith, count-append s d.told x)
            ]

  return_run-Accounts : (s : S) (d : DisconnectQueue S) → Accounts s (in_all s d) (return_run d)
  unfolding return_run
  return_run-Accounts s d =
      elim d.in_hand
        as (λ hand.
          Accounts s (in_all s (record d { in_hand = hand }))
            (return_run (record d { in_hand = hand }))) [
              | some x ↦ refl
              | none ↦
                  guarded-Accounts s _ (d.running && d.signalled)
                    (record d { in_hand = none; running = false; signalled = false }) refl
            ]

  drain-Accounts : (s : S) (d : DisconnectQueue S) → Accounts s (in_all s d) (drain d)
  unfolding drain count
  drain-Accounts s d =
      elim d.disconnect
        as (λ queue.
          Accounts s (in_all s (record d { disconnect = queue }))
            (drain (record d { disconnect = queue }))) [
              | [] ↦ refl
              | x ∷ rest ↦
                  guarded-Accounts s _ d.draining
                    (record d { disconnect = rest; told = d.told ++ x ∷ [] })
                    (omega (arith, count-append s d.told x))
            ]

  finish-Accounts : (s : S) (d : DisconnectQueue S) → Accounts s (in_all s d) (finish d)
  unfolding finish
  finish-Accounts s d =
      elim d.disconnect
        as (λ queue.
          Accounts s (in_all s (record d { disconnect = queue }))
            (finish (record d { disconnect = queue }))) [
              | [] ↦
                  guarded-Accounts s _ d.draining (record d { disconnect = []; draining = false })
                    refl
              | x ∷ rest ↦ refl
            ]

  check_open-Accounts :
      (s : S) (d : DisconnectQueue S) (x : S)
      → in_all s (check_open d x) ≡ in_all s d + one (x == s)
  unfolding check_open
  check_open-Accounts s d x =
      ground (arith, count-append s d.admitted x, count-append s d.dropped x)

  stop-Accounts : (s : S) (d : DisconnectQueue S) → in_all s (stop d) ≡ in_all s d
  unfolding stop
  stop-Accounts s d = ground arith

  unchanged :
      (s : S) (d : DisconnectQueue S) (o : Option (DisconnectQueue S))
      → Accounts s (in_all s d) o
      → Accounts s (in_all s d + 0) o
  unchanged s d none k = refl
  unchanged s d (some d') k = omega (arith, k)

  step-Accounts :
      (s : S) (d : DisconnectQueue S) (event : Event S)
      → Accounts s (in_all s d + enqueued s event) (step d event)
  unfolding step time_out
  step-Accounts s d (enqueues x) = check_open-Accounts s d x
  step-Accounts s d sends = unchanged s d (send d) (send-Accounts s d)
  step-Accounts s d takes = unchanged s d (take d) (take-Accounts s d)
  step-Accounts s d ticks = unchanged s d (tell d) (tell-Accounts s d)
  step-Accounts s d returns = unchanged s d (return_run d) (return_run-Accounts s d)
  step-Accounts s d stops = omega (arith, stop-Accounts s d)
  step-Accounts s d drains = unchanged s d (drain d) (drain-Accounts s d)
  step-Accounts s d finishes = unchanged s d (finish d) (finish-Accounts s d)
  step-Accounts s d times_out =
      unchanged s d (time_out d)
        (guarded-Accounts s _ d.draining (record d { draining = false }) refl)

  abbrev continue : List (Event S) → Option (DisconnectQueue S) → Option (DisconnectQueue S)
  continue events none = none
  continue events (some d) = run d events

  continue-in_all :
      (s : S) (o : Option (DisconnectQueue S)) (events : List (Event S)) (d' : DisconnectQueue S)
      (total : ℕ)
      → ((d : DisconnectQueue S)
          → run d events ≡ some d'
          → in_all s d' ≡ in_all s d + enqueued_in s events)
      → Accounts s total o
      → continue events o ≡ some d'
      → in_all s d' ≡ total + enqueued_in s events
  continue-in_all s none events d' total rest k eq = ground (arith, eq)
  continue-in_all s (some d) events d' total rest k eq = omega (arith, rest d eq, k)

  run-in_all :
      (s : S) (events : List (Event S)) (d d' : DisconnectQueue S)
      → run d events ≡ some d'
      → in_all s d' ≡ in_all s d + enqueued_in s events
  unfolding run
  run-in_all s [] d d' eq =
      let same : d ≡ d' = ground (arith, eq) in
      let sum : in_all s d' ≡ in_all s d = ap (in_all s) (sym same) in omega (arith, sum)
  run-in_all s (event ∷ events) d d' eq =
      let total =
        continue-in_all s (step d event) events d' (in_all s d + enqueued s event)
          (λ after e'. run-in_all s events after d' e') (step-Accounts s d event) eq in
      omega (arith, total)

  -- However the callers of Enqueue, Run and Shutdown take turns on a new disconnect queue, a
  -- session is as often in the queue, with those who handle it, among those the application was
  -- told of, and among those dropped at shutdown, as it was given to Enqueue.
  pub run-new_disconnect_queue :
      (s : S) (backlog : ℕ) (events : List (Event S)) (d : DisconnectQueue S)
      → run (new_disconnect_queue backlog) events ≡ some d
      → in_all s d ≡ enqueued_in s events
  unfolding new_disconnect_queue count
  run-new_disconnect_queue s backlog events d eq =
      omega (arith, run-in_all s events (new_disconnect_queue backlog) d eq)
