-- ===== src/CircuitBreaker/Redis/Sequence.antt =====
-- Calls of a breaker one after another, on the server and in memory.
use resilience_kit.Prelude.{ℕ, ◌+◌, ◌<◌, Bool, true, ◌&&◌, not, List, [], ◌∷◌, if◌then◌else◌}
use resilience_kit.Exceptions.{
  Outcome, returned, raised, known, cancelled_error, isinstance, catches,
}
use resilience_kit.CircuitBreaker.{BreakerConfig}
use resilience_kit.CircuitBreaker.Lua.{lifetime}
use resilience_kit.CircuitBreaker.Memory
use resilience_kit.CircuitBreaker.Memory.{Breaker}
use resilience_kit.CircuitBreaker.Redis.{Client, State, Awaited, call}

-- A function that ends at a time, and through which no task touches the breaker.
abbrev pub apart : {S A : Type 0} → Outcome A → ℕ → State S → Awaited S A
apart out t st = record { outcome = out; time = t; state = st }

abbrev pub apart_in_memory : {A : Type 0} → Outcome A → ℕ → Breaker → Memory.Awaited A
apart_in_memory out t m = record { outcome = out; time = t; breaker = m }

-- A call that starts at a time, with the function's outcome and the time when it ends.
pub record OneCall (A : Type 0) : Type 0 where
  pub starts : ℕ
  pub ends : ℕ
  pub outcome : Outcome A

-- What the callers get, one after another.
unfoldable pub outcomes : {S A : Type 0} → Client S → State S → List (OneCall A) → List (Outcome A)
unfolding call
outcomes client st [] = []
outcomes client st (c ∷ cs) =
    let (st', r) = call client c.starts (apart c.outcome c.ends) st in r ∷ outcomes client st' cs

unfoldable pub outcomes_in_memory : {A : Type 0} → Breaker → List (OneCall A) → List (Outcome A)
unfolding Memory.call
outcomes_in_memory m [] = []
outcomes_in_memory m (c ∷ cs) =
    let (m', r) = Memory.call c.starts (apart_in_memory c.outcome c.ends) m in
    r ∷ outcomes_in_memory m' cs

-- Whether the breaker counts the outcome of a function that it has called.
abbrev pub is_counted : {A : Type 0} → BreakerConfig → Outcome A → Bool
is_counted c (returned a) = true
is_counted c (raised e) =
    not (isinstance e (known cancelled_error)) && not (catches c.excluded_exceptions e)

-- Whether a poll lets the memory breaker go to half open.
abbrev pub is_waking : ℕ → Breaker → Bool
is_waking now b =
    Memory.is_open b.state && not (Memory.is_open (Memory.maybe_half_open now b).state)

module _ (second : ℕ) where
  -- When the key will have expired, after a poll and after the end of the function.
  abbrev pub polled_limit : BreakerConfig → ℕ → Breaker → ℕ → ℕ
  polled_limit c now m limit = if is_waking now m then now + lifetime second c else limit

  abbrev pub settled_limit : {A : Type 0} → BreakerConfig → Outcome A → ℕ → ℕ → ℕ
  settled_limit c out t limit = if is_counted c out then t + lifetime second c else limit

  -- No call finds the key expired: it starts before the limit that the last write has set, and so does
  -- its function end, if it is called.
  unfoldable pub IsPrompt : {A : Type 0} → ℕ → Breaker → List (OneCall A) → Type 0
  unfolding Memory.call Memory.maybe_half_open
  IsPrompt limit m [] = Unit
  IsPrompt limit m (o ∷ os) =
      let polled = polled_limit m.config o.starts m limit in
      let m' = (Memory.call o.starts (apart_in_memory o.outcome o.ends) m).0 in
      (o.starts < limit)
      × (if Memory.is_open (Memory.maybe_half_open o.starts m).state
          then IsPrompt polled m' os
          else ((o.ends < polled)
              × IsPrompt (settled_limit m.config o.outcome o.ends polled) m' os))
