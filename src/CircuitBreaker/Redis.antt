-- ===== src/CircuitBreaker/Redis.antt =====
-- circuit_breaker/redis_impl.py: `RedisAsyncBreaker`.
--
-- The client's operations return or raise, and move a state `S` of server and connection. What is
-- awaited in `call` hands back the object and `S` as the tasks that ran meanwhile have left them.
-- The locks and the decoding of replies are left out; the two clocks are one.
pub mod Soundness
pub mod FailOpen
pub mod Sequence
pub mod Agreement
pub mod Management
mod Samples
use resilience_kit.Prelude.{
  ℕ, String, Bool, true, false, List, [], ◌∷◌, Option, none, some, ◌==◌, if◌then◌else◌,
}
use resilience_kit.Exceptions.{
  Exn, Outcome, returned, raised, known, isinstance, catches, cancelled_error,
}
use resilience_kit.Redis.{
  redis_error, no_script_error, Health, all_well, degrade, snapshot_degraded, HealthSnapshot,
  BackendName,
}
use resilience_kit.CircuitBreaker.{BreakerState, BreakerConfig}
use resilience_kit.CircuitBreaker.Lua
use resilience_kit.CircuitBreaker.Lua.{Action, is_available, record_success, record_failure, Reply}
use resilience_kit.CircuitBreaker.Memory
use resilience_kit.CircuitBreaker.Memory.{Breaker, service_unavailable, is_open}

-- redis-py, as far as the breaker calls it.
pub record Client (S : Type 0) : Type 0 where
  pub script_load : S → S × Outcome ℕ
  pub evalsha : ℕ → Action → BreakerConfig → ℕ → S → S × Outcome Reply
  pub ping : S → S × Outcome (Unit {0})

pub record RedisBreaker : Type 0 where
  pub config : BreakerConfig
  pub sha : Option ℕ
  pub health : Health
  pub fallback : Breaker
  pub metrics : List String

unfoldable pub new : BreakerConfig → RedisBreaker
unfolding Memory.new
new config = record {
  config = config;
  sha = none;
  health = all_well;
  fallback = Memory.new config;
  metrics = [];
}

abbrev pub incr : String → RedisBreaker → RedisBreaker
incr m b = record b { metrics = m ∷ b.metrics }

unfoldable pub mark_degraded : ℕ → RedisBreaker → RedisBreaker
unfolding degrade
mark_degraded now b = incr "breaker.degraded" (record b { health = degrade now b.health })

-- The object and the server.
pub record State (S : Type 0) : Type 0 where
  pub breaker : RedisBreaker
  pub server : S

pub record Awaited (S A : Type 0) : Type 0 where
  pub outcome : Outcome A
  pub time : ℕ
  pub state : State S

module _ {S : Type 0} (client : Client S) where
  -- `self._sha = await self._redis.script_load(BREAKER_LUA)`
  unfoldable pub load : State S → State S × Outcome ℕ
  load st =
      let (server, r) = client.script_load st.server in
      elim r [
        | returned sha ↦ (
          record { breaker = record st.breaker { sha = some sha }; server = server },
          returned sha,
        )
        | raised e ↦ (record st { server = server }, raised e)
      ]

  unfoldable pub evalsha : ℕ → Action → ℕ → State S → State S × Outcome Reply
  evalsha sha action now st =
      let (server, r) = client.evalsha sha action st.breaker.config now st.server in
      (record st { server = server }, r)

  -- With the script loaded: once more if the server has forgotten it.
  unfoldable pub eval_loaded : ℕ → Action → ℕ → State S → State S × Outcome Reply
  unfolding load evalsha
  eval_loaded sha action now st =
      let (st', r) = evalsha sha action now st in
      elim r [
        | returned reply ↦ (st', returned reply)
        | raised e ↦
            if isinstance e no_script_error
            then (let (st'', r') = load st' in
                elim r' [
                  | returned sha' ↦ evalsha sha' action now st''
                  | raised e' ↦ (st'', raised e')
                ])
            else (st', raised e)
      ]

  unfoldable pub eval : Action → ℕ → State S → State S × Outcome Reply
  unfolding eval_loaded
  eval action now st = elim st.breaker.sha [
    | some sha ↦ eval_loaded sha action now st
    | none ↦
        let (st', r) = load st in
        elim r [ returned sha ↦ eval_loaded sha action now st' | raised e ↦ (st', raised e) ]
  ]

  -- `_record`: the exception that gets through, if any.
  unfoldable pub record_outcome : Action → ℕ → State S → State S × Option Exn
  unfolding eval mark_degraded
  record_outcome action now st =
      let (st', r) = eval action now st in
      elim r [
        | returned reply ↦ (st', none)
        | raised e ↦
            if isinstance e redis_error
            then (record st' { breaker = mark_degraded now st'.breaker }, none)
            else (st', some e)
      ]

  module _ {A : Type 0} where
    -- `self._fallback.call(func, …)`
    unfoldable pub fallback_call : ℕ → (State S → Awaited S A) → State S → State S × Outcome A
    fallback_call now func st =
        let f = Memory.maybe_half_open now st.breaker.fallback in
        if is_open f.state
        then (
          record st {
            breaker = record (st.breaker) { fallback = Memory.incr "breaker.short_circuit" f };
          },
          raised service_unavailable,
        )
        else (let r = func (record st { breaker = record (st.breaker) { fallback = f } }) in
            let f' =
              Memory.settle {A = A} (record {
                outcome = r.outcome;
                time = r.time;
                breaker = r.state.breaker.fallback;
              }) in
            (record (r.state) { breaker = record (r.state.breaker) { fallback = f' } }, r.outcome))

    -- An exception of `_record` replaces the outcome.
    abbrev pub or_raise : State S × Option Exn → Outcome A → State S × Outcome A
    or_raise (st, none) out = (st, out)
    or_raise (st, some e) out = (st, raised e)

    -- The handlers of the `try` statement of `call`.
    unfoldable pub settle : Awaited S A → State S × Outcome A
    unfolding record_outcome
    settle r = elim r.outcome [
      | returned a ↦ or_raise (record_outcome record_success r.time r.state) (returned a)
      | raised e ↦
          if isinstance e (known cancelled_error)
          then (r.state, raised e)
          else if catches r.state.breaker.config.excluded_exceptions e
          then (r.state, raised e)
          else or_raise (record_outcome record_failure r.time r.state) (raised e)
    ]

    unfoldable pub call : ℕ → (State S → Awaited S A) → State S → State S × Outcome A
    unfolding eval fallback_call settle mark_degraded
    call now func st =
        if st.breaker.health.healthy
        then (let (st', r) = eval is_available now st in
            elim r [
              | returned reply ↦
                  if reply.flag == 0
                  then (
                    record st' { breaker = incr "breaker.short_circuit" st'.breaker },
                    raised service_unavailable,
                  )
                  else settle (func st')
              | raised e ↦
                  if isinstance e redis_error
                  then fallback_call now func
                      (record st' { breaker = mark_degraded now st'.breaker })
                  else (st', raised e)
            ])
        else fallback_call now func st
