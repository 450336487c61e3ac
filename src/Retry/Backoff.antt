-- ===== src/Retry/Backoff.antt =====
-- retry/backoff.py, and `_next_delay` of retry/decorator.py.
--
-- Times are whole ticks. `exponential_base` is a fraction, so that 2.0 is 2/1 and 1.5 is 3/2, and
-- the product is rounded down to a tick. `random.uniform` is an argument.
use resilience_kit.Prelude.{ℕ, ◌*◌, ◌/◌, ◌^◌, min, max}

pub record Ratio : Type 0 where
  pub num : ℕ
  pub den : ℕ

unfoldable pub constant_backoff : ℕ → ℕ
constant_backoff base_delay = base_delay

unfoldable pub exponential_backoff : ℕ → ℕ → Ratio → ℕ → ℕ
exponential_backoff attempt base_delay exponential_base max_delay =
    min max_delay (base_delay * exponential_base.num ^ attempt / exponential_base.den ^ attempt)

-- `uniform lo hi` is the draw that the generator makes next.
unfoldable pub decorrelated_jitter : ℕ → ℕ → ℕ → (ℕ → ℕ → ℕ) → ℕ
decorrelated_jitter previous_delay base_delay max_delay uniform =
    let upper = max base_delay (previous_delay * 3) in min max_delay (uniform base_delay upper)

-- Any other text than `none` and `full` selects the decorrelated strategy.
pub data Jitter : Type 0 where
  none full decorrelated : Jitter

unfoldable pub next_delay : Jitter → ℕ → ℕ → ℕ → Ratio → ℕ → (ℕ → ℕ → ℕ) → ℕ
unfolding exponential_backoff decorrelated_jitter
next_delay none attempt previous_delay base_delay exponential_base max_delay uniform =
    exponential_backoff attempt base_delay exponential_base max_delay
next_delay full attempt previous_delay base_delay exponential_base max_delay uniform =
    uniform 0 (exponential_backoff attempt base_delay exponential_base max_delay)
next_delay decorrelated attempt previous_delay base_delay exponential_base max_delay uniform =
    decorrelated_jitter previous_delay base_delay max_delay uniform
