-- ===== src/Health/Samples.antt =====
-- A roster of two, and the theorem at it.
use resilience_kit.Prelude.{ℕ, zero, suc, true, [], ◌∷◌, none, ◌≡◌, refl}
use resilience_kit.Exceptions.{returned}
use resilience_kit.Redis.{redis}
use resilience_kit.Recovery.{Recovery}
use resilience_kit.Health.{
  HealthAggregate, degraded_but_serving, http_status, Check, answered, timed_out, health_snapshot,
}
use resilience_kit.Health.Verdict.{health_snapshot-verdict}

abbrev roster : Recovery ℕ
roster = record { registered = 0 ∷ 1 ∷ []; warm_hooks = []; env = 0 }

abbrev health_check : ℕ → Check
health_check zero = timed_out
health_check (suc n) = answered (record { healthy = true; backend = redis; degraded_since = none })

health_snapshot-verdict_example :
    (a : HealthAggregate) × (health_snapshot health_check roster ≡ returned a)
    × (a.status ≡ degraded_but_serving)
    × (http_status a ≡ 200)
health_snapshot-verdict_example = health_snapshot-verdict health_check roster refl
