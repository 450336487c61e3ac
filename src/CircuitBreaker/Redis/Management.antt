-- ===== src/CircuitBreaker/Redis/Management.antt =====
-- `RedisAsyncBreaker` beside its calls: its state, its reset and its health.
use resilience_kit.Prelude.{ℕ, Bool, true, false, Option, none, some, if◌then◌else◌}
use resilience_kit.Exceptions.{Exn, Outcome, returned, raised, isinstance}
use resilience_kit.Redis.{redis_error, all_well, snapshot_degraded, HealthSnapshot, BackendName}
use resilience_kit.CircuitBreaker.{BreakerState}
use resilience_kit.CircuitBreaker.Lua.{Action, is_available}
use resilience_kit.CircuitBreaker.Memory
use resilience_kit.CircuitBreaker.Memory.{Breaker, service_unavailable, is_open}
use resilience_kit.CircuitBreaker.Redis.{Client, incr, mark_degraded, State, eval, record_outcome}

module _ {S : Type 0} (client : Client S) where
  -- `self._fallback.state()`
  unfoldable pub fallback_state : ℕ → State S → State S × Outcome BreakerState
  unfolding Memory.read_state
  fallback_state now st =
      let (f, state) = Memory.read_state now st.breaker.fallback in
      (record st { breaker = record (st.breaker) { fallback = f } }, returned state)

  -- `state`
  unfoldable pub read_state : ℕ → State S → State S × Outcome BreakerState
  unfolding eval mark_degraded fallback_state
  read_state now st =
      if st.breaker.health.healthy
      then (let (st', r) = eval client is_available now st in
          elim r [
            | returned reply ↦ (st', returned reply.state)
            | raised e ↦
                if isinstance e redis_error
                then fallback_state now (record st' { breaker = mark_degraded now st'.breaker })
                else (st', raised e)
          ])
      else fallback_state now st

  -- `reset`: the exception that gets through, if any.
  unfoldable pub reset_breaker : ℕ → State S → State S × Option Exn
  unfolding record_outcome Memory.reset_breaker
  reset_breaker now st =
      let (st', e) = record_outcome client Action.reset now st in
      elim e [
        | some e ↦ (st', some e)
        | none ↦ (
          record st' {
            breaker =
                incr "breaker.reset"
                  (record (st'.breaker) { fallback = Memory.reset_breaker st'.breaker.fallback });
          },
          none,
        )
      ]

  unfoldable pub health_check : ℕ → State S → State S × Outcome HealthSnapshot
  unfolding mark_degraded
  health_check now st =
      if st.breaker.health.healthy
      then (let (server, r) = client.ping st.server in
          let st' = record st { server = server } in
          elim r [
            | returned pong ↦ (
              st',
              returned
                  (record { healthy = true; backend = BackendName.redis; degraded_since = none }),
            )
            | raised e ↦
                if isinstance e redis_error
                then (let b = mark_degraded now st'.breaker in
                    (record st' { breaker = b }, returned (snapshot_degraded b.health)))
                else (st', raised e)
          ])
      else (st, returned (snapshot_degraded st.breaker.health))

  unfoldable pub try_recover : State S → State S × Outcome Bool
  try_recover st =
      if st.breaker.health.healthy
      then (st, returned false)
      else let (server, r) = client.ping st.server in
        let st' = record st { server = server } in
        elim r [
          | returned pong ↦ (
            record st' {
              breaker = incr "breaker.recovered" (record (st'.breaker) { health = all_well });
            },
            returned true,
          )
          | raised e ↦ if isinstance e redis_error then (st', returned false) else (st', raised e)
        ]
