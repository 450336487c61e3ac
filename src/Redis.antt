-- ===== src/Redis.antt =====
-- What the Redis backends of the breaker, the throttle and the cache share.
--
-- redis-py is not part of the repository: its errors are classes that derive from `Exception`, and
-- its client is a record of functions, in each backend, over a state `S` of server and connection.
pub mod Clients
use resilience_kit.Prelude.{ℕ, Bool, true, false, Option, none, some, if◌then◌else◌}
use resilience_kit.Exceptions.{Cls, known, user, exception}

abbrev pub redis_error : Cls
redis_error = user 0 (known exception)

abbrev pub no_script_error : Cls
no_script_error = user 1 redis_error

-- `_healthy`, `_degraded_since` and `_log_degraded_once`.
pub record Health : Type 0 where
  pub healthy : Bool
  pub degraded_since : Option ℕ
  pub log_degraded_once : Bool

abbrev pub all_well : Health
all_well = record { healthy = true; degraded_since = none; log_degraded_once = false }

-- The two `if` statements of `_mark_degraded`.
unfoldable pub degrade : ℕ → Health → Health
degrade now h =
    if h.healthy
    then record { healthy = false; degraded_since = some now; log_degraded_once = true }
    else record h { log_degraded_once = true }

-- `HealthSnapshot`, without its texts.
pub data BackendName : Type 0 where
  redis memory : BackendName
  -- by its alias or class
  named : ℕ → BackendName

pub record HealthSnapshot : Type 0 where
  pub healthy : Bool
  pub backend : BackendName
  pub degraded_since : Option ℕ

-- A snapshot of a degraded backend.
abbrev pub snapshot_degraded : Health → HealthSnapshot
snapshot_degraded h = record {
  healthy = false;
  backend = BackendName.memory;
  degraded_since = h.degraded_since;
}
