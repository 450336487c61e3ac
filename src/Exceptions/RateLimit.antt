-- ===== src/Exceptions/RateLimit.antt =====
-- exceptions/validation.py: `RateLimitError`, of the fields of a throttle's decision.
--
-- Messages and details are left out. `str` of a number is an argument, a second is `second` ticks.
use native.Mathlib.Nat.{le-max_right, mul-le-mul_right, div-add-mod', mod-lt}
use resilience_kit.Prelude.{
  ℕ, ◌+◌, ◌*◌, ◌≤◌, ◌<◌, ◌/◌, ◌%◌, max, String, [], ◌∷◌, Option, ltb, Bool-cases, inl, inr, arith,
  if◌then◌else◌,
}
use resilience_kit.Prelude.Dict.{Dict}

pub record RateLimit : Type 0 where
  pub limit : ℕ
  pub remaining : ℕ
  pub reset_at : ℕ
  pub retry_after : ℕ
  pub scope : Option String

-- `max(1, int(t) + (t % 1 > 0))`, for a time in ticks.
unfoldable pub whole_seconds : ℕ → ℕ → ℕ
whole_seconds second ticks = max 1 (ticks / second + (if ltb 0 (ticks % second) then 1 else 0))

unfoldable pub response_headers : (ℕ → String) → ℕ → RateLimit → Dict String
unfolding whole_seconds
response_headers text_of second r =
    ("Retry-After", text_of (whole_seconds second r.retry_after))
    ∷ ("X-RateLimit-Limit", text_of r.limit)
    ∷ ("X-RateLimit-Remaining", text_of r.remaining)
    ∷ ("X-RateLimit-Reset", text_of r.reset_at)
    ∷ []

-- The whole seconds are no less than the time.
pub whole_seconds-le : (second ticks : ℕ) → 0 < second → ticks ≤ whole_seconds second ticks * second
unfolding whole_seconds
whole_seconds-le second ticks h =
    let seconds = ticks / second + (if ltb 0 (ticks % second) then 1 else 0) in
    let least = mul-le-mul_right second (le-max_right 1 seconds) in
    elim (Bool-cases (ltb 0 (ticks % second))) [
      | inl k ↦ ground (arith, k, least, div-add-mod' ticks second, mod-lt ticks h)
      | inr k ↦ ground (arith, k, least, div-add-mod' ticks second)
    ]
