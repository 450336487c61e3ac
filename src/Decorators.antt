-- ===== src/Decorators.antt =====
-- decorators.py, and `retry_on_failure` of retry/decorator.py.
--
-- What is decorated is a `World` over a `Process`: it may touch the registry and the breakers, as the
-- tasks do that run while it is awaited. `time` reads the clock of the breakers.
pub mod Composition
mod Samples
use resilience_kit.Prelude.{
  ℕ, Bool, String, List, [], ◌∷◌, Option, none, some, if◌then◌else◌, true, false,
}
use resilience_kit.Exceptions.{Cls, Exn, Outcome, returned, raised, known, exception, runtime_error}
use resilience_kit.Retry.Loop.{Policy, World, async_wrapper}
use resilience_kit.CircuitBreaker.Memory
use resilience_kit.CircuitBreaker.Memory.{Breaker, service_unavailable, is_open}
use resilience_kit.Registry.{
  Defaults, RetryPolicy, ServiceConfig, Process, get_config, get_breaker, write,
}

-- `cfg.retry_on or (Exception,)`
abbrev pub or_exception : List Cls → List Cls
or_exception [] = known exception ∷ []
or_exception (c ∷ cs) = c ∷ cs

-- The arguments that `retry_on_failure` passes to `retry`.
abbrev pub policy_of : RetryPolicy → Policy
policy_of cfg = record {
  max_attempts = cfg.max_attempts;
  base_delay = cfg.wait_min;
  exponential_base = cfg.exponential_base;
  max_delay = cfg.wait_max;
  exceptions = or_exception cfg.retry_on;
  jitter = cfg.jitter;
  raise_on_failure = true;
}

abbrev pub in_a_running_loop : Exn
in_a_running_loop = record { cls = known runtime_error; payload = 0 }

module _ {S A : Type 0} (time : S → ℕ) (d : Defaults) where
  -- `breaker.call(func)`, of the object at a place.
  unfoldable pub call_at :
      ℕ → (Process S → Process S × Outcome A) → Process S → Process S × Outcome A
  unfolding Memory.maybe_half_open Memory.settle
  call_at id func p =
      let b = Memory.maybe_half_open (time p.env) (p.heap id) in
      if is_open b.state
      then (write id (Memory.incr "breaker.short_circuit" b) p, raised service_unavailable)
      else (let (p', out) = func (write id b p) in
          (
            write id
                (Memory.settle {A = A}
                  (record { outcome = out; time = time p'.env; breaker = p'.heap id }))
                p',
            out,
          ))

  unfoldable pub circuit_breaker :
      String → (Process S → Process S × Outcome A) → Process S → Process S × Outcome A
  unfolding get_breaker call_at
  circuit_breaker name func p =
      let (p', r) = get_breaker d name p in
      elim r [ raised e ↦ (p', raised e) | returned id ↦ call_at id func p' ]

  -- The wrapper of a function that is not a coroutine.
  unfoldable pub circuit_breaker_sync :
      Bool → String → (Process S → Process S × Outcome A) → Process S → Process S × Outcome A
  unfolding circuit_breaker
  circuit_breaker_sync in_loop name func p =
      if in_loop then (p, raised in_a_running_loop) else circuit_breaker name func p

-- The policy is read at each call. It has no callback.
unfoldable pub retry_on_failure :
    {S A : Type 0}
    → Defaults
    → String
    → World (Process S) A
    → Process S
    → Process S × Outcome (Option A)
unfolding get_config async_wrapper
retry_on_failure d name w p = elim (get_config d name p.registry) [
  | raised e ↦ (p, raised e)
  | returned cfg ↦ async_wrapper (policy_of cfg.retry) (record w { on_error = none }) p
]

unfoldable pub resilient :
    {S A : Type 0}
    → (S → ℕ)
    → Defaults
    → String
    → World (Process S) A
    → Process S
    → Process S × Outcome (Option A)
unfolding circuit_breaker retry_on_failure
resilient time d name w = circuit_breaker time d name (retry_on_failure d name w)
