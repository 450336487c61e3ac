-- ===== src/Registry/Samples.antt =====
-- A registry of two services, and the theorems at it.
use resilience_kit.Prelude.{ℕ, List, [], ◌∷◌, some}
use resilience_kit.Prelude.Dict
use resilience_kit.Exceptions.{Cls, known, transient_error}
use resilience_kit.Retry.Backoff.{Jitter}
use resilience_kit.CircuitBreaker.{default_config}
use resilience_kit.CircuitBreaker.Memory
use resilience_kit.CircuitBreaker.Memory.{Breaker}
use resilience_kit.Registry.{
  Defaults, ServiceOverrides, Process, no_overrides, new_registry, get_breaker,
}

abbrev defaults : Defaults
defaults = record {
  max_attempts = 3;
  wait_min = 1;
  wait_max = 10;
  exponential_base = record { num = 2; den = 1 };
  jitter = Jitter.none;
  fail_max = 5;
  reset_timeout = 30;
  success_threshold = 2;
}

abbrev blank : Breaker
blank = Memory.new (default_config 1)

abbrev start : Process ℕ
start = record { registry = new_registry; heap = λ j. blank; next = 0; env = 0 }

abbrev two_services : Process ℕ
two_services = (get_breaker defaults "mail" (get_breaker defaults "pay" start).0).0

-- One failure opens the breaker.
abbrev strict : ServiceOverrides
strict = record no_overrides { fail_max = some 1 }

abbrev known_transient : List Cls
known_transient = known transient_error ∷ []
