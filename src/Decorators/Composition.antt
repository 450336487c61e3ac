-- ===== src/Decorators/Composition.antt =====
-- `resilient`: the breaker outside, the retries inside.
use resilience_kit.Prelude.{
  ℕ, suc, ◌+◌, ◌<◌, String, ◌≡◌, sym, subst, true, false, ◌||◌, none, some, arith,
}
use resilience_kit.Exceptions.{Exn, returned, raised, isinstance, catches, known, cancelled_error}
use resilience_kit.Retry.Loop.{World, async_wrapper}
use resilience_kit.Retry.Verdict.{Scripted, is_retryable, async_wrapper-exhausted}
use resilience_kit.Retry.Keeps.{Keeps, async_wrapper_keeps}
use resilience_kit.CircuitBreaker.{«open», closed}
use resilience_kit.CircuitBreaker.Memory
use resilience_kit.CircuitBreaker.Memory.{Breaker, service_unavailable}
use resilience_kit.Registry.{Defaults, ServiceConfig, Process, get_config, write}
use resilience_kit.Registry.Sharing.{place, get_breaker_known}
use resilience_kit.Decorators.{policy_of, call_at, circuit_breaker, retry_on_failure, resilient}

module _ {S A : Type 0} (time : S → ℕ) (d : Defaults) (name : String)
    (w : World (Process S) A) where
  -- While the service's breaker is open and `reset_timeout` has not passed, nothing of what is
  -- decorated is run: no attempt, no sleep. The refusal is raised and only its metric is written.
  resilient_refused :
      (p : Process S) (id opened : ℕ)
      → place p name ≡ some id
      → (p.heap id).state ≡ «open»
      → (p.heap id).opened_at ≡ some opened
      → time p.env < opened + (p.heap id).config.reset_timeout
      → resilient time d name w p
        ≡ (write id (Memory.incr "breaker.short_circuit" (p.heap id)) p, raised service_unavailable)
  unfolding resilient circuit_breaker call_at Memory.maybe_half_open
  resilient_refused p id opened at s o early = ground (arith, get_breaker_known d name p id at)

  -- What the loop is run on.
  abbrev quiet : World (Process S) A
  quiet = record w { on_error = none }

  module _ (cfg : ServiceConfig) (sc : Scripted (policy_of cfg.retry) quiet) (tries : S → ℕ) where
    -- A call whose m + 1 = `max_attempts` attempts all fail with what the policy retries, on a
    -- closed breaker that nothing else touches, makes just so many attempts, raises the last
    -- failure, and counts on the breaker as one failure, if that one is counted at all.
    pub resilient_exhausted :
        (m : ℕ) (p : Process S) (id : ℕ) (x : Exn)
        → place p name ≡ some id
        → get_config d name p.registry ≡ returned cfg
        → (p.heap id).state ≡ closed
        → Keeps quiet (λ q. q.heap id)
        → ((q : Process S) → sc.calls q ≡ tries q.env)
        → cfg.retry.max_attempts ≡ suc m
        → ((n : ℕ)
            → n < suc m
            → is_retryable (policy_of cfg.retry) (sc.outs (tries p.env + n)) ≡ true)
        → sc.outs (tries p.env + m) ≡ raised x
        → isinstance x (known cancelled_error) || catches (p.heap id).config.excluded_exceptions x
          ≡ false
        → let (q, out) = resilient time d name w p in
          (out ≡ raised x)
          × (tries q.env ≡ tries p.env + cfg.retry.max_attempts)
          × (q.heap id ≡ Memory.record_failure (time q.env) (p.heap id))
    unfolding resilient circuit_breaker call_at retry_on_failure Memory.maybe_half_open
        Memory.settle
    resilient_exhausted m p id x at c s keeps count e all last plain =
        let p' = write id (Memory.maybe_half_open (time p.env) (p.heap id)) p in
        let n = count p' in
        let policy = policy_of cfg.retry in
        let (out, total) =
          async_wrapper-exhausted policy quiet sc m p' x e
            (λ i lt. subst (λ t. is_retryable policy (sc.outs (t + i)) ≡ true) (sym n) (all i lt))
            (subst (λ t. sc.outs (t + m) ≡ raised x) (sym n) last) in
        ground (
          arith,
          get_breaker_known d name p id at,
          c,
          s,
          n,
          out,
          total,
          count (async_wrapper policy quiet p').0,
          async_wrapper_keeps policy quiet (λ q. q.heap id) keeps p',
          plain,
        )
