-- ===== src/Rpc/Retry/Delays.antt =====
-- rpc/rpc.go, `retry`: the delays double, and within the time that a command has they never overflow.
use anycable.Prelude.{
  ℕ, zero, suc, ◌+◌, ◌-◌, ◌*◌, ◌^◌, ◌≤◌, ◌<◌, ◌≡◌, Bool, true, false, arith, ltb, Bool-cases, inl,
  inr, subst, sym,
}
use anycable.Rpc.Retry.{interval, millisecond, delay}

pub pow_positive : (a : ℕ) → 1 ≤ 2 ^ a
pow_positive zero = omega arith
pow_positive (suc a) = omega (arith, pow_positive a)

pow_grows : (a b : ℕ) → 2 ^ a ≤ 2 ^ (b + a)
pow_grows a zero =
    let same : a ≡ 0 + a = omega arith in
    let equal : 2 ^ a ≤ 2 ^ a = omega arith in subst (λ x. 2 ^ a ≤ 2 ^ x) same equal
pow_grows a (suc b) =
    let same : suc (b + a) ≡ suc b + a = omega arith in
    let doubled : 2 ^ a ≤ 2 ^ suc (b + a) = omega (arith, pow_grows a b) in
    subst (λ x. 2 ^ a ≤ 2 ^ x) same doubled

pow_small : (a : ℕ) → 2 ^ a < 2 ^ 63 → a < 63
pow_small a lt = elim (Bool-cases (ltb a 63)) [
  | (inl e) ↦ ground (arith, e)
  | (inr e) ↦
      let above : 63 ≤ a = ground (arith, e) in
      let same : a ≡ (a - 63) + 63 = omega arith in
      let large : 2 ^ 63 ≤ 2 ^ a = subst (λ x. 2 ^ 63 ≤ 2 ^ x) (sym same) (pow_grows 63 (a - 63)) in
      omega (arith, large)
]

-- The interval in nanoseconds.
abbrev pub unit : Bool → ℕ
unit exhausted = interval exhausted * millisecond

delay_small :
    (huge attempt : ℕ) (exhausted : Bool)
    → attempt < 63
    → 2 ^ attempt * unit exhausted < 2 ^ 63
    → delay huge attempt exhausted ≡ 2 ^ attempt * unit exhausted
unfolding delay
delay_small huge attempt true small lt = ground (arith, small, lt)
delay_small huge attempt false small lt = ground (arith, small, lt)

pub delay-unit :
    (huge attempt : ℕ) (exhausted : Bool)
    → 2 ^ attempt * unit exhausted < 2 ^ 63
    → delay huge attempt exhausted ≡ 2 ^ attempt * unit exhausted
delay-unit huge attempt true lt = delay_small huge attempt true (pow_small attempt (omega arith)) lt
delay-unit huge attempt false lt =
    delay_small huge attempt false (pow_small attempt (omega arith)) lt
