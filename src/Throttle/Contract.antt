-- ===== src/Throttle/Contract.antt =====
-- throttle/base.py: the protocol `AsyncThrottle`, over a state.
--
-- The readings of the clock are arguments. The protocol's `health_check` is left out.
use resilience_kit.Prelude.{ℕ, String}
use resilience_kit.Throttle.{Rate, ThrottleDecision}
use resilience_kit.Throttle.Memory.{Windows, check, reset}

pub record AsyncThrottle (S : Type 0) : Type 0 where
  pub check : ℕ → String → Rate → S → S × ThrottleDecision
  pub reset : String → S → S

-- `InMemoryAsyncThrottle`
unfoldable pub in_memory : ℕ → AsyncThrottle Windows
in_memory second = record { check = check second; reset = reset }
