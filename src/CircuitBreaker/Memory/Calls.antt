-- ===== src/CircuitBreaker/Memory/Calls.antt =====
-- `call`, on each of its branches.
use resilience_kit.Prelude.{ℕ, ◌+◌, ◌<◌, ◌≡◌, ◌≢◌, true, ◌||◌, some, arith}
use resilience_kit.Exceptions.{Exn, raised, known, isinstance, catches, cancelled_error}
use resilience_kit.CircuitBreaker.{«open»}
use resilience_kit.CircuitBreaker.Memory.{
  Breaker, Awaited, incr, maybe_half_open, service_unavailable, settle, call, poll, fail, refuse,
  succeed, apply,
}
use resilience_kit.CircuitBreaker.Memory.Invariant.{IsValid, apply-IsValid}

-- Until `reset_timeout` has passed since it opened, an open breaker refuses every call: the
-- function is not run, whatever it is, and only the short circuit is counted.
pub call-refused :
    {A : Type 0} (now opened : ℕ) (func : Breaker → Awaited A) (b : Breaker)
    → b.state ≡ «open»
    → b.opened_at ≡ some opened
    → now < opened + b.config.reset_timeout
    → call now func b ≡ (incr "breaker.short_circuit" b, raised service_unavailable)
unfolding call
call-refused now opened func b s o lt = ground arith

-- A call that is let through hands on the outcome of the function unchanged. A cancelled one and
-- one with an excluded exception leave the breaker as the function left it.
call-not_counted :
    {A : Type 0} (now : ℕ) (func : Breaker → Awaited A) (b : Breaker) (e : Exn)
    → (maybe_half_open now b).state ≢ «open»
    → (func (maybe_half_open now b)).outcome ≡ raised e
    → isinstance e (known cancelled_error)
        || catches (func (maybe_half_open now b)).breaker.config.excluded_exceptions e
      ≡ true
    → call now func b ≡ ((func (maybe_half_open now b)).breaker, raised e)
unfolding call
call-not_counted now func b e s o x = ground arith

settle-IsValid : {A : Type 0} (r : Awaited A) → IsValid r.breaker → IsValid (settle r)
unfolding settle apply
settle-IsValid r v =
    ground (arith, apply-IsValid (fail r.time) r.breaker v, apply-IsValid succeed r.breaker v)

-- A call keeps the invariant, if the tasks that run while it waits do.
call-IsValid :
    {A : Type 0} (now : ℕ) (func : Breaker → Awaited A) (b : Breaker)
    → ((b' : Breaker) → IsValid b' → IsValid (func b').breaker)
    → IsValid b
    → IsValid (call now func b).0
unfolding call
call-IsValid now func b keeps v = ground (
  arith,
  apply-IsValid (poll now) b v,
  apply-IsValid refuse (maybe_half_open now b),
  settle-IsValid (func (maybe_half_open now b)),
  keeps (maybe_half_open now b),
)
