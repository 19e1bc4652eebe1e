-- ===== src/Node/Disconnector/Rate.antt =====
-- node/disconnect_queue.go: the rates that the queue can run with.
use native.Mathlib.Nat.{mul-div-le, le-div_iff_mul-le}
use anycable.Prelude.{
  ℕ, ◌*◌, ◌/◌, ◌≤◌, ◌<◌, ◌≡◌, ◌↔◌, Option, none, some, arith, ltb, Bool-cases, inl, inr,
}
use anycable.Node.Disconnector.{rate_duration, new_ticker}

-- The interval of the ticker: `none` where the making of the queue or its Run panics.
abbrev pub ticker : ℕ → Option ℕ
ticker rate = elim (rate_duration rate) [ none ↦ none | some duration ↦ new_ticker duration ]

-- The disconnect queue is made and runs without a panic exactly for rates from 1 to 1000 calls a
-- second, and the interval of its ticker in milliseconds, at least 1, times the rate is at most
-- 1000: as many calls a second as the rate, or more.
pub ticker_lem :
    (rate : ℕ)
    → (((d : ℕ) × (ticker rate ≡ some d)) ↔ ((0 < rate) × (rate ≤ 1000)))
      × ((d : ℕ) → ticker rate ≡ some d → (rate * d ≤ 1000) × (1 ≤ d))
unfolding rate_duration
ticker_lem rate = elim (Bool-cases (ltb 0 rate)) [
  | (inr off) ↦ (
    (λ (d, e). ground (arith, off, e), λ (some_rate, most). ground (arith, off, some_rate)),
    λ d e. ground (arith, off, e),
  )
  | (inl on) ↦
      let positive : 0 < rate = ground (arith, on) in
      let least = le-div_iff_mul-le {k = rate} {x = 1} {y = 1000} positive in
      let most = mul-div-le 1000 rate in
      (
        (
          λ (d, e). ground (arith, positive, e, least),
          λ (some_rate, slow). (1000 / rate, ground (arith, positive, slow, least)),
        ),
        λ d e. ground (arith, positive, e, most),
      )
]
