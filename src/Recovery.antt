-- ===== src/Recovery.antt =====
-- recovery.py: the roster of backends and `attempt_recover_all`.
--
-- A backend and a warm hook are numbers, the same for the same object; their methods move the whole
-- state, so that they may change the roster. The loop over the hooks runs over the live list, as a
-- Python loop does, by position, on fuel. A `CancelledError` of a probe or a hook gets through.
-- Locks and log lines are left out. `RecoveryMonitor` is in Monitor.
pub mod Hooks
pub mod Monitor
mod Samples
use resilience_kit.Prelude.{
  ℕ, zero, suc, ◌+◌, Bool, true, false, List, [], ◌∷◌, ◌++◌, Option, none, some, any, length,
  get_elem?, ◌==◌, if◌then◌else◌,
}
use resilience_kit.Exceptions.{Exn, Outcome, returned, raised, known, exception, isinstance}

pub record Recovery (S : Type 0) : Type 0 where
  pub registered : List ℕ
  pub warm_hooks : List ℕ
  pub env : S

-- `list.remove`, without its `ValueError`.
unfoldable pub remove_first : ℕ → List ℕ → List ℕ
remove_first backend [] = []
remove_first backend (other ∷ others) =
    let rest = remove_first backend others in if other == backend then others else other ∷ rest

module _ {S : Type 0} where
  unfoldable pub register_for_recovery : ℕ → Recovery S → Recovery S
  register_for_recovery backend r =
      if any (λ other. other == backend) r.registered
      then r
      else record r { registered = r.registered ++ backend ∷ [] }

  unfoldable pub unregister_for_recovery : ℕ → Recovery S → Recovery S
  unfolding remove_first
  unregister_for_recovery backend r = record r { registered = remove_first backend r.registered }

  unfoldable pub register_warm_hook : ℕ → Recovery S → Recovery S
  register_warm_hook hook r = record r { warm_hooks = r.warm_hooks ++ hook ∷ [] }

  unfoldable pub reset_recovery_state : Recovery S → Recovery S
  reset_recovery_state r = record r { registered = []; warm_hooks = [] }

-- `try_recover` of a backend, and the call of a hook.
pub record Backends (S : Type 0) : Type 0 where
  pub try_recover : ℕ → Recovery S → Recovery S × Outcome Bool
  pub hook : ℕ → Recovery S → Recovery S × Option Exn

module _ {S : Type 0} (b : Backends S) where
  -- The loop over the snapshot of the roster, from the count of those recovered so far.
  unfoldable pub probe_all : List ℕ → ℕ → Recovery S → Recovery S × Outcome ℕ
  probe_all [] recovered r = (r, returned recovered)
  probe_all (backend ∷ backends) recovered r =
      let rest = probe_all backends in
      let (r', out) = b.try_recover backend r in
      elim out [
        | returned flipped ↦ rest (if flipped then recovered + 1 else recovered) r'
        | raised e ↦ if isinstance e (known exception) then rest recovered r' else (r', raised e)
      ]

  -- The loop over the hooks from a position on; `none` is out of fuel.
  unfoldable pub run_hooks : ℕ → ℕ → Recovery S → Option (Recovery S × Option Exn)
  run_hooks zero i r = none
  run_hooks (suc fuel) i r =
      let rest = run_hooks fuel (i + 1) in
      elim (get_elem? r.warm_hooks i) [
        | none ↦ some (r, none)
        | some hook ↦
            let (r', x) = b.hook hook r in
            elim x [
              | none ↦ rest r'
              | some e ↦ if isinstance e (known exception) then rest r' else some (r', some e)
            ]
      ]

  unfoldable pub attempt_recover_all : ℕ → Recovery S → Option (Recovery S × Outcome ℕ)
  unfolding probe_all run_hooks
  attempt_recover_all fuel r =
      let (r', out) = probe_all r.registered 0 r in
      elim out [
        | raised e ↦ some (r', raised e)
        | returned zero ↦ some (r', returned 0)
        | returned (suc n) ↦ elim (run_hooks fuel 0 r') [
          | none ↦ none
          | some (r'', none) ↦ some (r'', returned (suc n))
          | some (r'', some e) ↦ some (r'', raised e)
        ]
      ]
