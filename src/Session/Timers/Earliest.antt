-- ===== src/Session/Timers/Earliest.antt =====
-- node/session.go, `SessionTimers.schedule`: the one timer goes off at the earliest deadline.
use anycable.Prelude.{
  ◌∙◌, subst, ℕ, ◌<◌, ◌≤◌, ◌≡◌, Option, none, some, inl, inr, arith, ltb, nat_beq, ◌&&◌, ◌||◌, List,
  [], ◌∷◌, All, All-map, Bool-cases, refl,
}
use anycable.Session.Timers.{
  TimerEvent, handshake, presence, expire, ping, pong, SessionTimers, consider, schedule,
}

-- The deadline that an event belongs to.
abbrev pub deadline_of : SessionTimers → TimerEvent → ℕ
deadline_of st handshake = st.handshake_deadline
deadline_of st presence = st.presence_deadline
deadline_of st expire = st.resume_deadline
deadline_of st ping = st.ping_deadline
deadline_of st pong = st.pong_deadline

-- No deadline is set.
abbrev pub IsIdle : SessionTimers → Type 0
IsIdle st = (ev : TimerEvent) → deadline_of st ev ≡ 0

-- `at` is the earliest of the deadlines that are set, and that of `ev`.
abbrev pub IsEarliest : SessionTimers → TimerEvent × ℕ → Type 0
IsEarliest st (ev, at) =
    (0 < at)
    × (deadline_of st ev ≡ at)
    × ((other : TimerEvent) → 0 < deadline_of st other → at ≤ deadline_of st other)

-- What a timer that was scheduled promises.
abbrev pub IsScheduled : SessionTimers → Option (TimerEvent × ℕ) → Type 0
IsScheduled st none = IsIdle st
IsScheduled st (some due) = IsEarliest st due

module _ (p : TimerEvent → ℕ) where
  -- What the steps for the events `seen` have chosen.
  abbrev Chosen : List TimerEvent → Option (TimerEvent × ℕ) → Type 0
  Chosen seen none = All (λ other. p other ≡ 0) seen
  Chosen seen (some (ev, at)) =
      (0 < at) × (p ev ≡ at) × All (λ other. 0 < p other → at ≤ p other) seen

  consider-Chosen :
      (ev : TimerEvent) (seen : List TimerEvent) (chosen : Option (TimerEvent × ℕ))
      → Chosen seen chosen
      → Chosen (ev ∷ seen) (consider ev (p ev) chosen)
  consider-Chosen ev seen none none_set = elim (Bool-cases (ltb 0 (p ev))) [
    | (inl e) ↦ rw e (
      ground arith,
      refl,
      ((λ h. omega arith), All-map (λ other unset h. omega (arith, unset)) seen none_set),
    )
    | (inr e) ↦ rw e (ground arith, none_set)
  ]
  consider-Chosen ev seen (some (old, delay)) (set, own, least) =
      elim (Bool-cases (ltb 0 (p ev) && (nat_beq delay 0 || ltb (p ev) delay))) [
        | (inl e) ↦ rw e (
          ground arith,
          refl,
          ((λ h. omega arith), All-map (λ other low h. ground (arith, low h)) seen least),
        )
        | (inr e) ↦ rw e (set, own, ((λ h. ground arith), least))
      ]

Chosen-IsScheduled :
    (st : SessionTimers) (chosen : Option (TimerEvent × ℕ))
    → Chosen (deadline_of st) (presence ∷ expire ∷ pong ∷ handshake ∷ ping ∷ []) chosen
    → IsScheduled st chosen
Chosen-IsScheduled st none (a, (b, (c, (d, (e, t))))) = λ ev.
    elim ev as (λ k. deadline_of st k ≡ 0) [
      | presence ↦ a
      | expire ↦ b
      | pong ↦ c
      | handshake ↦ d
      | ping ↦ e
    ]
Chosen-IsScheduled st (some (ev, at)) (set, own, (a, (b, (c, (d, (e, t)))))) = (
  set,
  own,
  λ other. elim other as (λ k. 0 < deadline_of st k → at ≤ deadline_of st k) [
    | presence ↦ a
    | expire ↦ b
    | pong ↦ c
    | handshake ↦ d
    | ping ↦ e
  ],
)

IsScheduled-same :
    (st st' : SessionTimers) (timer : Option (TimerEvent × ℕ))
    → ((ev : TimerEvent) → deadline_of st' ev ≡ deadline_of st ev)
    → IsScheduled st timer
    → IsScheduled st' timer
IsScheduled-same st st' none same idle = λ ev. same ev ∙ idle ev
IsScheduled-same st st' (some (ev, at)) same (set, own, least) = (
  set,
  same ev ∙ own,
  λ other h. rw (same other) (least other (subst (λ d. 0 < d) (same other) h)),
)

-- After scheduling, the timer goes off at the earliest deadline that is set and gives the handler
-- that deadline's event, and no timer runs exactly when no deadline is set; the deadlines are as
-- before.
pub schedule-earliest :
    (st : SessionTimers)
    → IsScheduled (schedule st) (schedule st).timer
      × ((ev : TimerEvent) → deadline_of (schedule st) ev ≡ deadline_of st ev)
unfolding schedule
schedule-earliest st =
    let p = deadline_of st in
    let after_ping = consider-Chosen p ping [] none tt in
    let after_handshake = consider-Chosen p handshake (ping ∷ []) _ after_ping in
    let after_pong = consider-Chosen p pong (handshake ∷ ping ∷ []) _ after_handshake in
    let after_expire = consider-Chosen p expire (pong ∷ handshake ∷ ping ∷ []) _ after_pong in
    let chosen =
      consider-Chosen p presence (expire ∷ pong ∷ handshake ∷ ping ∷ []) _ after_expire in
    let same : (ev : TimerEvent) → deadline_of (schedule st) ev ≡ deadline_of st ev = λ ev.
      elim ev as (λ k. deadline_of (schedule st) k ≡ deadline_of st k) [
        | presence ↦ refl
        | expire ↦ refl
        | pong ↦ refl
        | handshake ↦ refl
        | ping ↦ refl
      ] in
    let timer = (schedule st).timer in
    (IsScheduled-same st (schedule st) timer same (Chosen-IsScheduled st timer chosen), same)
