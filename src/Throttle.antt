-- ===== src/Throttle.antt =====
-- src/resilience_kit/throttle: the types of base.py. The parser of rates, the keys and the in-process
-- backend are in the children.
--
-- Times are whole ticks, and `per_seconds` is a number of ticks.
pub mod Memory
pub mod Rates
pub mod Scopes
pub mod Contract
pub mod Lua
pub mod Redis
use resilience_kit.Prelude.{ℕ, Bool}

pub record Rate : Type 0 where
  pub count : ℕ
  pub per_seconds : ℕ

pub record ThrottleDecision : Type 0 where
  pub allowed : Bool
  pub remaining : ℕ
  pub limit : ℕ
  pub reset_after : ℕ
  pub reset_at : ℕ
