-- ===== src/CircuitBreaker.antt =====
-- src/resilience_kit/circuit_breaker: the types of base.py. The backends are in the children.
--
-- Times are whole ticks of the breaker's clock.
pub mod Memory
pub mod Lua
pub mod PyBreaker
pub mod Redis
use resilience_kit.Prelude.{ℕ, ◌*◌, Bool, List, [], ◌∷◌, Option, none}
use resilience_kit.Exceptions.{
  Cls, known, value_error, type_error, key_error, attribute_error, assertion_error,
}

abbrev pub default_excluded_exceptions : List Cls
default_excluded_exceptions =
    known value_error
    ∷ known type_error
    ∷ known key_error
    ∷ known attribute_error
    ∷ known assertion_error
    ∷ []

pub data BreakerState : Type 0 where
  closed «open» half_open : BreakerState

pub record BreakerConfig : Type 0 where
  pub fail_max : ℕ
  pub reset_timeout : ℕ
  pub success_threshold : ℕ
  pub excluded_exceptions : List Cls

-- The defaults, with `second` ticks to a second.
abbrev pub default_config : ℕ → BreakerConfig
default_config second = record {
  fail_max = 5;
  reset_timeout = 30 * second;
  success_threshold = 2;
  excluded_exceptions = default_excluded_exceptions;
}
