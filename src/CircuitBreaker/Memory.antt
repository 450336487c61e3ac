-- ===== src/CircuitBreaker/Memory.antt =====
-- circuit_breaker/memory_impl.py: `InMemoryAsyncBreaker`.
--
-- A `Breaker` holds the fields of the object, and in `metrics` the names of the metrics that it has
-- sent, the latest first. Each method body that runs under the lock is one function, with the
-- reading of the clock as its argument, so that an interleaving of tasks is a sequence of these
-- functions (`Event`). The lock itself and its event loop are left out.
pub mod Invariant
pub mod Calls
pub mod Streaks
mod Samples
use resilience_kit.Prelude.{
  ℕ, ◌+◌, String, ◌&&◌, true, false, Bool, List, [], ◌∷◌, Option, none, some, leb, if◌then◌else◌,
}
use resilience_kit.Exceptions.{
  Exn, Outcome, returned, raised, known, isinstance, catches, cancelled_error,
  service_unavailable_error,
}
use resilience_kit.CircuitBreaker.{BreakerState, closed, «open», half_open, BreakerConfig}

pub record Breaker : Type 0 where
  pub config : BreakerConfig
  pub state : BreakerState
  pub failure_count : ℕ
  pub success_count : ℕ
  pub opened_at : Option ℕ
  pub metrics : List String

unfoldable pub new : BreakerConfig → Breaker
new config = record {
  config = config;
  state = closed;
  failure_count = 0;
  success_count = 0;
  opened_at = none;
  metrics = [];
}

abbrev pub incr : String → Breaker → Breaker
incr m b = record b { metrics = m ∷ b.metrics }

abbrev pub is_open : BreakerState → Bool
is_open «open» = true
is_open _ = false

abbrev pub is_half_open : BreakerState → Bool
is_half_open half_open = true
is_half_open _ = false

unfoldable pub open_locked : ℕ → Breaker → Breaker
open_locked now b =
    incr "breaker.open"
      (record b { state = «open»; opened_at = some now; success_count = 0; failure_count = 0 })

-- The test `now - opened_at >= reset_timeout` is stated without the subtraction.
unfoldable pub maybe_half_open : ℕ → Breaker → Breaker
maybe_half_open now b = elim b.opened_at [
  | none ↦ b
  | some opened ↦
      if is_open b.state && leb (opened + b.config.reset_timeout) now
      then incr "breaker.half_open" (record b { state = half_open; success_count = 0 })
      else b
]

unfoldable pub record_failure : ℕ → Breaker → Breaker
unfolding open_locked
record_failure now b =
    if is_half_open b.state
    then open_locked now b
    else let b' = incr "breaker.failure" (record b { failure_count = b.failure_count + 1 }) in
      if leb b'.config.fail_max b'.failure_count then open_locked now b' else b'

-- The end of a success while half open.
unfoldable pub close_if_due : Breaker → Breaker
close_if_due b =
    if leb b.config.success_threshold b.success_count
    then incr "breaker.close"
        (record b { state = closed; failure_count = 0; success_count = 0; opened_at = none })
    else b

unfoldable pub record_success : Breaker → Breaker
unfolding close_if_due
record_success b =
    if is_half_open b.state
    then close_if_due (incr "breaker.success" (record b { success_count = b.success_count + 1 }))
    else incr "breaker.success" (record b { failure_count = 0 })

unfoldable pub reset_breaker : Breaker → Breaker
reset_breaker b =
    incr "breaker.reset"
      (record b { state = closed; failure_count = 0; success_count = 0; opened_at = none })

-- `state()`, at a time
unfoldable pub read_state : ℕ → Breaker → Breaker × BreakerState
unfolding maybe_half_open
read_state now b = let b' = maybe_half_open now b in (b', b'.state)

-- What the awaited function hands back: its outcome, the time then, and the breaker as the tasks
-- that ran in the meantime have left it.
pub record Awaited (A : Type 0) : Type 0 where
  pub outcome : Outcome A
  pub time : ℕ
  pub breaker : Breaker

abbrev pub service_unavailable : Exn
service_unavailable = record { cls = known service_unavailable_error; payload = 0 }

-- The handlers of the `try` statement of `call`.
unfoldable pub settle : {A : Type 0} → Awaited A → Breaker
unfolding record_failure record_success
settle r = elim r.outcome [
  | returned a ↦ record_success r.breaker
  | raised e ↦
      if isinstance e (known cancelled_error)
      then r.breaker
      else if catches r.breaker.config.excluded_exceptions e
      then r.breaker
      else record_failure r.time r.breaker
]

unfoldable pub call : {A : Type 0} → ℕ → (Breaker → Awaited A) → Breaker → Breaker × Outcome A
unfolding maybe_half_open settle
call now func b =
    let b' = maybe_half_open now b in
    if is_open b'.state
    then (incr "breaker.short_circuit" b', raised service_unavailable)
    else let r = func b' in (settle r, r.outcome)

-- The atomic steps that a task can take.
pub data Event : Type 0 where
  poll fail : ℕ → Event
  refuse succeed force_close : Event

unfoldable pub apply : Event → Breaker → Breaker
unfolding maybe_half_open record_failure record_success reset_breaker
apply (poll now) b = maybe_half_open now b
apply (fail now) b = record_failure now b
apply refuse b = incr "breaker.short_circuit" b
apply succeed b = record_success b
apply force_close b = reset_breaker b

unfoldable pub run : Breaker → List Event → Breaker
run b [] = b
run b (e ∷ es) = run (apply e b) es
