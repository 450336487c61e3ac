-- ===== src/Retry/Loop.antt =====
-- retry/decorator.py: `retry`, `retry_on_failure` and `_filter_retry_on`.
--
-- What the loop calls is a `World`: the wrapped function, the error callback, the sleep, the random
-- generator and the metrics, each of which moves a state `S` of the model's choice. Either sleep
-- may raise (a cancelled task, an interrupt). Log lines are left out. The sync and the async wrapper
-- have one text and differ in the sleep alone.
use resilience_kit.Prelude.{
  ℕ, zero, suc, ◌+◌, ◌-◌, Bool, List, [], ◌∷◌, Option, none, some, ltb, ◌==◌, if◌then◌else◌,
}
use resilience_kit.Exceptions.{
  Cls, known, Exn, Outcome, returned, raised, issubclass, isinstance, catches, exception,
  service_unavailable_error,
}
use resilience_kit.Retry.Backoff.{Ratio, Jitter, next_delay}

abbrev pub unavailable : Cls
unavailable = known service_unavailable_error

unfoldable pub filter_retry_on : List Cls → List Cls
filter_retry_on [] = []
filter_retry_on (e ∷ exceptions) =
    let rest = filter_retry_on exceptions in if issubclass e unavailable then rest else e ∷ rest

-- The keyword arguments of `retry`, but for the callback.
pub record Policy : Type 0 where
  pub max_attempts : ℕ
  pub base_delay : ℕ
  pub exponential_base : Ratio
  pub max_delay : ℕ
  pub exceptions : List Cls
  pub jitter : Jitter
  pub raise_on_failure : Bool

-- A metric of the loop, with the number that its tag carries.
pub data RetryMetric : Type 0 where
  success attempt exhausted : ℕ → RetryMetric

pub record World (S A : Type 0) : Type 0 where
  pub func : S → S × Outcome A
  pub on_error : Option (Exn → ℕ → S → S × Option Exn)
  pub sleep : ℕ → S → S × Option Exn
  -- What the generator draws from a range next, and the state once it has.
  pub uniform : S → ℕ → ℕ → ℕ
  pub drawn : S → S
  pub incr : RetryMetric → S → S

module _ {S A : Type 0} (p : Policy) (w : World S A) where
  -- What follows the loop; `none` is the `None` that it returns.
  unfoldable pub after_loop : Option Exn → S → S × Outcome (Option A)
  after_loop last_exc s = (
    w.incr (exhausted p.max_attempts) s,
    elim last_exc [
      | none ↦ returned none
      | some e ↦ if p.raise_on_failure then raised e else returned none
    ],
  )

  -- `try: on_error(…) except Exception`: what else the callback raises gets through.
  unfoldable pub notify : Exn → ℕ → S → S × Option Exn
  notify e n s = elim w.on_error [
    | none ↦ (s, none)
    | some callback ↦
        let (s', r) = callback e n s in
        (
          s',
          elim r [ none ↦ none | some x ↦ if isinstance x (known exception) then none else some x ],
        )
  ]

  -- The generator moves only if the strategy draws.
  unfoldable pub after_draw : Jitter → S → S
  after_draw Jitter.none s = s
  after_draw _ s = w.drawn s

  -- From the choice of a delay to the next round, which is `rest`.
  unfoldable pub back_off :
      (ℕ → Option Exn → S → S × Outcome (Option A)) → ℕ → ℕ → Exn → S → S × Outcome (Option A)
  unfolding after_draw
  back_off rest k prev_delay e s =
      let delay =
        next_delay p.jitter k prev_delay p.base_delay p.exponential_base p.max_delay
          (w.uniform s) in
      let s' = w.incr (attempt (k + 1)) (after_draw p.jitter s) in
      let (s'', r) = w.sleep delay s' in
      elim r [ none ↦ rest delay (some e) s'' | some x ↦ (s'', raised x) ]

  -- The body of `except safe_exceptions as exc`.
  unfoldable pub on_failure :
      (ℕ → Option Exn → S → S × Outcome (Option A)) → ℕ → ℕ → Exn → S → S × Outcome (Option A)
  unfolding notify back_off after_loop
  on_failure rest k prev_delay e s =
      let (s', r) = notify e (k + 1) s in
      elim r [
        | some x ↦ (s', raised x)
        | none ↦
            if k == p.max_attempts - 1
            then after_loop (some e) s'
            else back_off rest k prev_delay e s'
      ]

  -- One round: the `try` statement with its two handlers.
  unfoldable pub round :
      (ℕ → Option Exn → S → S × Outcome (Option A)) → ℕ → ℕ → S → S × Outcome (Option A)
  unfolding on_failure
  round rest k prev_delay s =
      let (s', out) = w.func s in
      elim out [
        | returned a ↦ (if ltb 0 k then w.incr (success (k + 1)) s' else s', returned (some a))
        | raised e ↦
            if isinstance e unavailable
            then (s', raised e)
            else if catches (filter_retry_on p.exceptions) e
            then on_failure rest k prev_delay e s'
            else (s', raised e)
      ]

  -- `for attempt in range(max_attempts)`, with the rounds left and the attempt.
  unfoldable pub rounds : ℕ → ℕ → ℕ → Option Exn → S → S × Outcome (Option A)
  unfolding round after_loop
  rounds zero k prev_delay last_exc s = after_loop last_exc s
  rounds (suc n) k prev_delay last_exc s = round (rounds n (k + 1)) k prev_delay s

  unfoldable pub async_wrapper : S → S × Outcome (Option A)
  unfolding rounds
  async_wrapper s = rounds p.max_attempts 0 p.base_delay none s

-- The same loop over a world whose `sleep` is `time.sleep`.
unfoldable pub sync_wrapper : {S A : Type 0} → Policy → World S A → S → S × Outcome (Option A)
unfolding async_wrapper
sync_wrapper p w s = rounds p w p.max_attempts 0 p.base_delay none s
