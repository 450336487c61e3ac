-- ===== src/CircuitBreaker/PyBreaker.antt =====
-- circuit_breaker/pybreaker_impl.py: `PyBreakerAsyncBreaker`.
--
-- pybreaker's breaker moves a state `S`. Entering its context manager says whether it refuses, which it
-- does with a CircuitBreakerError; leaving it after an exception says whether that trips the breaker, so
-- that a CircuitBreakerError takes the place of the exception, which is its `__context__`. Where the
-- caller handles an exception itself, that one is the `__context__` of a refusal, as Python has it.
use resilience_kit.Prelude.{
  String, Bool, true, Option, none, some, str_eq, ◌≡◌, arith, inl, inr, if◌then◌else◌,
}
use resilience_kit.Exceptions.{
  Exn, Outcome, returned, raised, known, service_unavailable_error, Outcome-cases,
}
use resilience_kit.CircuitBreaker.{BreakerState, closed, «open», half_open}

pub record PyBreaker (S : Type 0) : Type 0 where
  pub enter : S → S × Bool
  pub leave : Option Exn → S → S × Bool
  pub close : S → S
  pub current_state : S → String

abbrev pub unavailable : Exn
unavailable = record { cls = known service_unavailable_error; payload = 0 }

-- What a CircuitBreakerError turns into, by its `__context__`.
abbrev pub from_context : {A : Type 0} → Option Exn → Outcome A
from_context none = raised unavailable
from_context (some e) = raised e

module _ {S : Type 0} (p : PyBreaker S) where
  -- `call`, where the caller handles the exception `handling`, if any.
  unfoldable pub call : {A : Type 0} → Option Exn → (S → S × Outcome A) → S → S × Outcome A
  call handling func s =
      let (s₁, refused) = p.enter s in
      let (s₂, out) = func s₁ in
      if refused then (s₁, from_context handling) else (elim out [
        | returned a ↦ let (s₃, _) = p.leave none s₂ in (s₃, returned a)
        | raised e ↦
            let (s₃, trips) = p.leave (some e) s₂ in
            (s₃, if trips then from_context (some e) else raised e)
      ])

  -- `state`
  unfoldable pub state : S → BreakerState
  state s =
      let name = p.current_state s in
      if str_eq name "open" then «open» else if str_eq name "half-open" then half_open else closed

  -- Where the caller handles no exception, a call that is refused does not run the function and raises
  -- ServiceUnavailableError, and one that is not ends as the function does, tripping or not.
  call-outcome :
      {A : Type 0} (func : S → S × Outcome A) (s : S)
      → (call none func s).1
        ≡ (if (p.enter s).1 then raised unavailable else (func (p.enter s).0).1)
  unfolding call
  call-outcome func s = elim (Outcome-cases (func (p.enter s).0).1) [
    | inl (a, k) ↦ ground (arith, k)
    | inr (e, k) ↦ ground (arith, k)
  ]

  -- A refusal while the caller handles an exception raises that exception.
  call-handling :
      {A : Type 0} (func : S → S × Outcome A) (s : S) (handling : Exn)
      → (p.enter s).1 ≡ true
      → (call (some handling) func s).1 ≡ raised handling
  unfolding call
  call-handling func s handling refused = ground (arith, refused)
