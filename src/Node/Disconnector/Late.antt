-- ===== src/Node/Disconnector/Late.antt =====
-- node/disconnect_queue.go: a session that enters the queue after its end.
use anycable.Prelude.{
  ℕ, ◌<◌, ◌≡◌, refl, sym, ap, ◌∙◌, subst, Bool, true, false, Option, none, some, List, [], ◌∷◌,
  ◌++◌, arith, if◌then◌else◌, ltb, length, List-cases, inl, inr, if_true,
}
use anycable.Node.Disconnector.{
  DisconnectQueue, Event, enqueues, sends, takes, ticks, returns, stops, drains, finishes,
  times_out, new_disconnect_queue, check_open, send, take, tell, return_run, stop, drain, finish,
  time_out, step, run,
}

module _ {S : Type 0} where
  -- Run has returned and Shutdown is done, and the application was told of nobody.
  record IsOver (d : DisconnectQueue S) : Type 0 where
    running : d.running ≡ false
    draining : d.draining ≡ false
    in_hand : d.in_hand ≡ none
    stopped : d.is_stopped ≡ true
    told : d.told ≡ []

  abbrev StaysOver : Option (DisconnectQueue S) → Type 0
  StaysOver none = ◌≡◌ {A = ℕ} 0 0
  StaysOver (some d) = IsOver d

  nothing_more : (o : Option (DisconnectQueue S)) → o ≡ none → StaysOver o
  nothing_more none e = refl
  nothing_more (some d) e = ground (arith, e)

  guarded-StaysOver :
      (b : Bool) (d : DisconnectQueue S) → IsOver d → StaysOver (if b then some d else none)
  guarded-StaysOver true d over = over
  guarded-StaysOver false d over = refl

  take-none : (d : DisconnectQueue S) → IsOver d → take d ≡ none
  unfolding take
  take-none d over = elim (List-cases d.disconnect) [
    | (inl e) ↦ ground (arith, e)
    | (inr (x, rest, e)) ↦ ground (arith, e, over.in_hand, over.running)
  ]

  drain-none : (d : DisconnectQueue S) → IsOver d → drain d ≡ none
  unfolding drain
  drain-none d over = elim (List-cases d.disconnect) [
    | (inl e) ↦ ground (arith, e)
    | (inr (x, rest, e)) ↦ ground (arith, e, over.draining)
  ]

  finish-none : (d : DisconnectQueue S) → IsOver d → finish d ≡ none
  unfolding finish
  finish-none d over = elim (List-cases d.disconnect) [
    | (inl e) ↦ ground (arith, e, over.draining)
    | (inr (x, rest, e)) ↦ ground (arith, e)
  ]

  send-StaysOver : (d : DisconnectQueue S) → IsOver d → StaysOver (send d)
  unfolding send
  send-StaysOver d over =
      elim d.admitted as (λ waiting. StaysOver (send (record d { admitted = waiting }))) [
        | [] ↦ refl
        | x ∷ rest ↦
            guarded-StaysOver (ltb (length d.disconnect) d.backlog)
              (record d { admitted = rest; disconnect = d.disconnect ++ x ∷ [] })
              (record {
                running = over.running;
                draining = over.draining;
                in_hand = over.in_hand;
                stopped = over.stopped;
                told = over.told;
              })
      ]

  step-StaysOver : (d : DisconnectQueue S) (event : Event S) → IsOver d → StaysOver (step d event)
  unfolding step check_open tell return_run stop time_out
  step-StaysOver d (enqueues x) over =
      subst IsOver
        (sym (if_true d.is_stopped (record d { dropped = d.dropped ++ x ∷ [] }) _ over.stopped))
        (record {
          running = over.running;
          draining = over.draining;
          in_hand = over.in_hand;
          stopped = over.stopped;
          told = over.told;
        })
  step-StaysOver d sends over = send-StaysOver d over
  step-StaysOver d takes over = nothing_more (take d) (take-none d over)
  step-StaysOver d ticks over = nothing_more (tell d) (ground (arith, over.in_hand))
  step-StaysOver d returns over =
      nothing_more (return_run d) (ground (arith, over.in_hand, over.running))
  step-StaysOver d stops over = subst IsOver (sym (if_true d.is_stopped d _ over.stopped)) over
  step-StaysOver d drains over = nothing_more (drain d) (drain-none d over)
  step-StaysOver d finishes over = nothing_more (finish d) (finish-none d over)
  step-StaysOver d times_out over = nothing_more (time_out d) (ground (arith, over.draining))

  abbrev continue : List (Event S) → Option (DisconnectQueue S) → Option (DisconnectQueue S)
  continue events none = none
  continue events (some d) = run d events

  continue-IsOver :
      (o : Option (DisconnectQueue S)) (events : List (Event S)) (d' : DisconnectQueue S)
      → ((d : DisconnectQueue S) → IsOver d → run d events ≡ some d' → IsOver d')
      → StaysOver o
      → continue events o ≡ some d'
      → IsOver d'
  continue-IsOver none events d' rest k e = ground (arith, e)
  continue-IsOver (some d) events d' rest k e = rest d k e

  run-IsOver :
      (events : List (Event S)) (d d' : DisconnectQueue S)
      → IsOver d
      → run d events ≡ some d'
      → IsOver d'
  unfolding run
  run-IsOver [] d d' over e = subst IsOver (ground (arith, e)) over
  run-IsOver (event ∷ events) d d' over e =
      continue-IsOver (step d event) events d' (λ after k e'. run-IsOver events after d' k e')
        (step-StaysOver d event over) e

  -- When a caller of Enqueue finds the queue open, Shutdown then finds it empty and Run returns
  -- before the caller sends its session, the application is told of no session, whatever happens
  -- afterwards.
  pub run-late :
      (s : S) (backlog : ℕ) (events : List (Event S)) (d : DisconnectQueue S)
      → 0 < backlog
      → run (new_disconnect_queue backlog) (enqueues s ∷ stops ∷ returns ∷ sends ∷ events) ≡ some d
      → d.told ≡ []
  unfolding run step new_disconnect_queue check_open stop return_run send
  run-late s backlog events d room e =
      let queued : DisconnectQueue S = record (new_disconnect_queue backlog) {
        disconnect = s ∷ [];
        running = false;
        is_stopped = true;
      } in
      let over =
        run-IsOver events queued d
          (record { running = refl; draining = refl; in_hand = refl; stopped = refl; told = refl })
          (ap (continue events) (sym (if_true (ltb 0 backlog) _ _ (ground (arith, room)))) ∙ e) in
      over.told
