-- ===== src/Throttle/Redis/Management.antt =====
-- `RedisAsyncThrottle` beside its checks: its reset and its health.
use resilience_kit.Prelude.{ℕ, String, true, Option, none, some, if◌then◌else◌}
use resilience_kit.Exceptions.{Exn, Outcome, returned, raised, isinstance}
use resilience_kit.Redis.{redis_error, snapshot_degraded, HealthSnapshot, BackendName}
use resilience_kit.Throttle.Memory
use resilience_kit.Throttle.Memory.{Windows}
use resilience_kit.Throttle.Redis.{Client, RedisThrottle, mark_degraded, State}

module _ {S : Type 0} (client : Client S) (second : ℕ) where
  -- The exception that gets through, if any.
  unfoldable pub reset : ℕ → String → State S → State S × Option Exn
  unfolding mark_degraded Memory.reset
  reset now key st =
      let (server, r) = client.delete key st.server in
      let st' = record st { server = server } in
      let forget = λ (t : RedisThrottle). record t { fallback = Memory.reset key t.fallback } in
      elim r [
        | returned n ↦ (record st' { throttle = forget st'.throttle }, none)
        | raised e ↦
            if isinstance e redis_error
            then (record st' { throttle = forget (mark_degraded now st'.throttle) }, none)
            else (st', some e)
      ]

  unfoldable pub health_check : ℕ → State S → State S × Outcome HealthSnapshot
  unfolding mark_degraded
  health_check now st =
      if st.throttle.health.healthy
      then (let (server, r) = client.ping st.server in
          let st' = record st { server = server } in
          elim r [
            | returned pong ↦ (
              st',
              returned
                  (record { healthy = true; backend = BackendName.redis; degraded_since = none }),
            )
            | raised e ↦
                if isinstance e redis_error
                then (let t = mark_degraded now st'.throttle in
                    (record st' { throttle = t }, returned (snapshot_degraded t.health)))
                else (st', raised e)
          ])
      else (st, returned (snapshot_degraded st.throttle.health))
