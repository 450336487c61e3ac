-- ===== src/Health.antt =====
-- health.py: `health_snapshot`, over the roster of Recovery; and the route `/readyz` of
-- adapters/fastapi/lifespan.py.
--
-- The probes run at the same time, each of a backend of its own, so that one is a function of the
-- backend: what its `health_check` ends with. Texts of details are left out.
pub mod Verdict
mod Samples
use resilience_kit.Prelude.{
  ℕ, String, Bool, true, false, List, [], ◌∷◌, map, Option, none, some, any, ◌&&◌, if◌then◌else◌,
}
use resilience_kit.Exceptions.{Exn, Outcome, returned, raised, known, exception, isinstance}
use resilience_kit.Redis.{HealthSnapshot, named}
use resilience_kit.Recovery.{Recovery}

pub data HealthStatus : Type 0 where
  ok degraded_but_serving degraded : HealthStatus

pub record HealthAggregate : Type 0 where
  pub status : HealthStatus
  pub snapshots : List HealthSnapshot

unfoldable pub http_status : HealthAggregate → ℕ
http_status a = elim a.status [ ok ↦ 200 | degraded_but_serving ↦ 200 | degraded ↦ 503 ]

-- How a `health_check` ends: in time, or with a TimeoutError, or with another exception.
pub data Check : Type 0 where
  answered : HealthSnapshot → Check
  timed_out : Check
  failed : Exn → Check

abbrev pub all_healthy : List HealthSnapshot → Bool
all_healthy [] = true
all_healthy (s ∷ snapshots) = s.healthy && all_healthy snapshots

abbrev pub unhealthy : ℕ → HealthSnapshot
unhealthy backend = record { healthy = false; backend = named backend; degraded_since = none }

-- `_reduce`
unfoldable pub reduce : List HealthSnapshot → HealthAggregate
reduce snapshots =
    if all_healthy snapshots
    then record { status = ok; snapshots = snapshots }
    else if any (λ s. s.healthy) snapshots
    then record { status = degraded_but_serving; snapshots = snapshots }
    else record { status = degraded; snapshots = snapshots }

module _ (health_check : ℕ → Check) where
  -- `_probe`
  unfoldable pub probe : ℕ → Outcome HealthSnapshot
  probe backend = elim (health_check backend) [
    | answered snapshot ↦ returned snapshot
    | timed_out ↦ returned (unhealthy backend)
    | failed e ↦ if isinstance e (known exception) then returned (unhealthy backend) else raised e
  ]

  -- `asyncio.gather`: the results in order, or an exception, here that of the first on the roster.
  unfoldable pub gather : List ℕ → Outcome (List HealthSnapshot)
  unfolding probe
  gather [] = returned []
  gather (backend ∷ backends) =
      let rest = gather backends in
      elim (probe backend) [
        | raised e ↦ raised e
        | returned snapshot ↦ elim rest [
          | raised e ↦ raised e
          | returned snapshots ↦ returned (snapshot ∷ snapshots)
        ]
      ]

  unfoldable pub health_snapshot : {S : Type 0} → Recovery S → Outcome HealthAggregate
  unfolding gather reduce
  health_snapshot r = elim r.registered [
    | [] ↦ returned (record { status = ok; snapshots = [] })
    | backend ∷ backends ↦ elim (gather (backend ∷ backends)) [
      | raised e ↦ raised e
      | returned snapshots ↦ returned (reduce snapshots)
    ]
  ]
