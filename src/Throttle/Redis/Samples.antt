-- ===== src/Throttle/Redis/Samples.antt =====
-- A server that is down, and the theorems at it.
use resilience_kit.Prelude.{ℕ, ◌+◌, false, true, refl, some}
use resilience_kit.Exceptions.{Exn, raised, issubclass}
use resilience_kit.Redis.{redis_error}
use resilience_kit.Throttle.{Rate}
use resilience_kit.Throttle.Redis
use resilience_kit.Throttle.Redis.{
  Client, State, fail_open, fail_closed, denied, check, eval, eval_loaded, load, evalsha,
}
use resilience_kit.Throttle.Redis.Outage.{IsDown}

-- How often the server was asked.
abbrev Server : Type 0
Server = ℕ

abbrev gone : Exn
gone = record { cls = redis_error; payload = 0 }

abbrev down : Client Server
down = record {
  script_load = λ (s : Server). (s + 1, raised gone);
  evalsha = λ sha key limit window (s : Server). (s + 1, raised gone);
  delete = λ key (s : Server). (s + 1, raised gone);
  ping = λ (s : Server). (s + 1, raised gone);
}

down-IsDown : IsDown down gone
unfolding issubclass native.Mathlib.Decide.ℕ_discrete
down-IsDown = record {
  of_redis = refl;
  not_no_script = refl;
  script_load = λ s. refl;
  evalsha = λ sha key limit window s. refl;
  ping = λ s. refl;
}

abbrev one_a_minute : Rate
one_a_minute = record { count = 1; per_seconds = 60 }

abbrev fresh : State Server
fresh = record { throttle = Redis.new 30 fail_open; server = 0 }

abbrev degraded : State Server
degraded = record fresh {
  throttle = record (fresh.throttle) {
    health = record { healthy = false; degraded_since = some 40; log_degraded_once = true };
    last_probe_at = 45;
  };
}
