-- ===== src/CircuitBreaker/Redis/Soundness.antt =====
-- The health of the Redis breaker.
use resilience_kit.Prelude.{ℕ, not, ◌≡◌, is_some, arith, is_some}
use resilience_kit.Redis.{Health, degrade}
use resilience_kit.CircuitBreaker.Lua.{Action, is_available, record_success, record_failure}
use resilience_kit.CircuitBreaker.Memory
use resilience_kit.CircuitBreaker.Memory.{Breaker, service_unavailable}
use resilience_kit.CircuitBreaker.Redis.{
  Client, State, Awaited, mark_degraded, load, evalsha, eval_loaded, eval, record_outcome, settle,
  fallback_call, call,
}
use resilience_kit.CircuitBreaker.Redis.Management.{
  fallback_state, read_state, reset_breaker, health_check, try_recover,
}

-- Degraded exactly while there is a time since when, and a warning that has been logged.
pub record IsSound (h : Health) : Type 0 where
  pub since : is_some h.degraded_since ≡ not h.healthy
  pub logged : h.log_degraded_once ≡ not h.healthy

degrade-IsSound : (now : ℕ) (h : Health) → IsSound h → IsSound (degrade now h)
unfolding degrade
degrade-IsSound now h v = ground (arith, v.since, v.logged)

module _ {S : Type 0} (client : Client S) where
  abbrev health_of : State S → Health
  health_of st = st.breaker.health

  -- The health that a run of the script leaves is the health before it.
  eval-health :
      (action : Action) (now : ℕ) (st : State S)
      → health_of (eval client action now st).0 ≡ health_of st
  unfolding eval eval_loaded load evalsha
  eval-health action now st = ground arith

  record_outcome-IsSound :
      (action : Action) (now : ℕ) (st : State S)
      → IsSound (health_of st)
      → IsSound (health_of (record_outcome client action now st).0)
  unfolding record_outcome mark_degraded
  record_outcome-IsSound action now st v = ground (
    arith,
    v.since,
    v.logged,
    eval-health action now st,
    degrade-IsSound now (health_of (eval client action now st).0),
  )

  module _ {A : Type 0} where
    settle-IsSound :
        (r : Awaited S A) → IsSound (health_of r.state) → IsSound (health_of (settle client r).0)
    unfolding settle
    settle-IsSound r v = ground (
      arith,
      v.since,
      v.logged,
      record_outcome-IsSound record_success r.time r.state v,
      record_outcome-IsSound record_failure r.time r.state v,
    )

    fallback_call-IsSound :
        (now : ℕ) (func : State S → Awaited S A) (st : State S)
        → ((s : State S) → IsSound (health_of s) → IsSound (health_of (func s).state))
        → IsSound (health_of st)
        → IsSound (health_of (fallback_call client now func st).0)
    unfolding fallback_call
    fallback_call-IsSound now func st keeps v = ground (
      arith,
      v.since,
      v.logged,
      keeps (record st {
        breaker = record (st.breaker) { fallback = Memory.maybe_half_open now st.breaker.fallback };
      }),
    )

    -- A call keeps the health sound, whatever the client does, if the tasks that run while the
    -- function is awaited do.
    call-IsSound :
        (now : ℕ) (func : State S → Awaited S A) (st : State S)
        → ((s : State S) → IsSound (health_of s) → IsSound (health_of (func s).state))
        → IsSound (health_of st)
        → IsSound (health_of (call client now func st).0)
    unfolding call mark_degraded
    call-IsSound now func st keeps v =
        let st' = (eval client is_available now st).0 in
        let degraded = record st' { breaker = mark_degraded now st'.breaker } in
        ground (
          arith,
          v.since,
          v.logged,
          eval-health is_available now st,
          degrade-IsSound now (health_of st'),
          fallback_call-IsSound now func st keeps,
          fallback_call-IsSound now func degraded keeps,
          keeps st',
          settle-IsSound (func st'),
        )

  -- `state`, `reset`, `health_check` and `try_recover` keep the health sound too.
  maintenance-IsSound :
      (now : ℕ) (st : State S)
      → IsSound (health_of st)
      → IsSound (health_of (read_state client now st).0)
        × IsSound (health_of (reset_breaker client now st).0)
        × IsSound (health_of (health_check client now st).0)
        × IsSound (health_of (try_recover client st).0)
  unfolding read_state reset_breaker health_check try_recover fallback_state mark_degraded
  maintenance-IsSound now st v = ground (
    arith,
    v.since,
    v.logged,
    eval-health is_available now st,
    degrade-IsSound now (health_of st),
    degrade-IsSound now (health_of (eval client is_available now st).0),
    record_outcome-IsSound Action.reset now st v,
  )
