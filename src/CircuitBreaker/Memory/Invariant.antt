-- ===== src/CircuitBreaker/Memory/Invariant.antt =====
-- What holds of a breaker under every interleaving of tasks.
use resilience_kit.Prelude.{◌<◌, ◌≡◌, ◌⊎◌, Bool, true, false, List, [], ◌∷◌, none, arith, is_some}
use resilience_kit.CircuitBreaker.{BreakerState, closed, «open», half_open, BreakerConfig}
use resilience_kit.CircuitBreaker.Memory.{
  Breaker, new, Event, poll, fail, refuse, succeed, force_close, apply, run,
}

-- A breaker whose thresholds are at least 1.
pub record IsValid (b : Breaker) : Type 0 where
  pub thresholds : (0 < b.config.fail_max) × (0 < b.config.success_threshold)
  pub failures_below : b.failure_count < b.config.fail_max
  pub successes_below : b.success_count < b.config.success_threshold
  pub closed_clear : b.state ≡ closed → (b.opened_at ≡ none) × (b.success_count ≡ 0)
  pub open_clear : b.state ≡ «open» → b.success_count ≡ 0
  pub opened : (b.state ≡ closed) ⊎ (is_some b.opened_at ≡ true)

new-IsValid : (c : BreakerConfig) → 0 < c.fail_max → 0 < c.success_threshold → IsValid (new c)
unfolding new
new-IsValid c f s = ground arith

pub apply-IsValid : (e : Event) (b : Breaker) → IsValid b → IsValid (apply e b)
unfolding apply
apply-IsValid (poll now) b v = ground arith
apply-IsValid (fail now) b v = ground arith
apply-IsValid refuse b v = ground arith
apply-IsValid succeed b v = ground arith
apply-IsValid force_close b v = ground arith

-- Whatever tasks do in whatever order, the counters stay below their thresholds, a closed breaker
-- has no opening time, and one that is open or half open has one.
pub run-IsValid : (es : List Event) (b : Breaker) → IsValid b → IsValid (run b es)
unfolding run
run-IsValid [] b v = v
run-IsValid (e ∷ es) b v = run-IsValid es (apply e b) (apply-IsValid e b v)

-- The documented diagram.
infix 40 ◌⟶◌
pub data ◌⟶◌ : BreakerState → BreakerState → Type 0 where
  stay : {s : BreakerState} → s ⟶ s
  trip : closed ⟶ «open»
  probe : «open» ⟶ half_open
  recover : half_open ⟶ closed
  reopen : half_open ⟶ «open»

abbrev is_forced : Event → Bool
is_forced force_close = true
is_forced _ = false

-- Apart from `reset`, every atomic step follows an edge of the documented diagram.
pub apply-⟶ : (e : Event) (b : Breaker) → is_forced e ≡ false → b.state ⟶ (apply e b).state
unfolding apply
apply-⟶ e b h = grind (arith, stay, trip, probe, recover, reopen)
