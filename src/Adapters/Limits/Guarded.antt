-- ===== src/Adapters/Limits/Guarded.antt =====
-- What a limit lets through to the handlers behind it.
use resilience_kit.Prelude.{
  ℕ, ◌≤◌, String, Bool, true, false, List, [], ◌∷◌, map, ◌≡◌, ◌≢◌, refl, ap, arith, inl, inr,
  Bool-cases, str_eq, eq_iff, eq_refl, ◌∙◌, if◌then◌else◌,
}
use resilience_kit.Exceptions.{Outcome, returned, raised, Outcome-cases}
use resilience_kit.Throttle.{Rate}
use resilience_kit.Throttle.Contract.{in_memory}
use resilience_kit.Throttle.Memory.{Windows, window}
use resilience_kit.Throttle.Memory.Windows.{
  window-check_self, window-check_decision, window-check_other, count_in, Rising, allowed_from,
}
use resilience_kit.Throttle.Memory.Limit.{count_in-allowed_from}
use resilience_kit.Throttle.Scopes.{Scope, Attrs, build_key}
use resilience_kit.Adapters.Limits.{Gate, passes, enforce}

-- Whether a check counts under a key.
abbrev pub is_under : String → Outcome String → Bool
is_under key (returned other) = str_eq other key
is_under key (raised e) = false

abbrev pub is_passed : Gate → Bool
is_passed passes = true
is_passed _ = false

str_differ : (a b : String) → str_eq a b ≡ false → a ≢ b
str_differ a b h = ground (arith, h, eq_iff a b)

Rising-le : (times : List ℕ) (a b : ℕ) → a ≤ b → Rising b times → Rising a times
Rising-le [] a b le r = tt
Rising-le (t ∷ times) a b le r = (omega (arith, le, r.0), r.1)

module _ (second : ℕ) (scope : Scope) (rate : Rate) where
  -- Of a sequence of requests, the times of those under a key that get to the handler.
  unfoldable pub handled : String → Windows → List (ℕ × Attrs) → List ℕ
  unfolding enforce
  handled key s [] = []
  handled key s ((now, attrs) ∷ later) =
      let (s', gate) = enforce (in_memory second) scope rate attrs now s in
      let rest = handled key s' later in
      if is_under key (build_key scope attrs)
      then if is_passed gate then now ∷ rest else rest
      else rest

  -- The times of the requests under a key.
  abbrev pub times_under : String → List (ℕ × Attrs) → List ℕ
  times_under key [] = []
  times_under key ((now, attrs) ∷ later) =
      let rest = times_under key later in
      if is_under key (build_key scope attrs) then now ∷ rest else rest

  handled-eq-allowed_from :
      (key : String) (s : Windows) (requests : List (ℕ × Attrs))
      → handled key s requests ≡ allowed_from second rate (window s key) (times_under key requests)
  unfolding handled allowed_from enforce in_memory
  handled-eq-allowed_from key s [] = refl
  handled-eq-allowed_from key s ((now, attrs) ∷ later) =
      let s' = (enforce (in_memory second) scope rate attrs now s).0 in
      let ih = handled-eq-allowed_from key s' later in
      elim (Outcome-cases (build_key scope attrs)) [
        | inr (e, k) ↦ ground (arith, k, ih)
        | inl (other, k) ↦ elim (Bool-cases (str_eq other key)) [
          | inl same ↦
              let at_key : build_key scope attrs ≡ returned key =
                k ∙ ap returned ((eq_iff other key).0 same) in
              ground (
                arith,
                at_key,
                ih,
                window-check_self second now key rate s,
                window-check_decision second now key rate s,
                eq_refl key,
              )
          | inr differ ↦ ground (
            arith,
            k,
            differ,
            ih,
            window-check_other second now other key rate s (str_differ other key differ),
          )
        ]
      ]

  times_under-Rising :
      (key : String) (start : ℕ) (requests : List (ℕ × Attrs))
      → Rising start (map (λ r. r.0) requests)
      → Rising start (times_under key requests)
  times_under-Rising key start [] r = tt
  times_under-Rising key start ((now, attrs) ∷ later) r =
      let ih = times_under-Rising key now later r.1 in
      elim (Bool-cases (is_under key (build_key scope attrs))) [
        | inl k ↦ rw k (r.0, ih)
        | inr k ↦ rw k (Rising-le (times_under key later) start now r.0 ih)
      ]

  -- Over the in-memory throttle, whatever requests come, of whatever clients, at times that do not
  -- fall: of those that count under a key whose window is empty at the start, at most `count` get to
  -- the handler within any closed interval of the rate's length.
  pub handled_within_rate :
      (key : String) (s : Windows) (requests : List (ℕ × Attrs)) (a start : ℕ)
      → window s key ≡ []
      → Rising start (map (λ r. r.0) requests)
      → count_in rate.per_seconds a (handled key s requests) ≤ rate.count
  handled_within_rate key s requests a start fresh r =
      rw (handled-eq-allowed_from key s requests, fresh)
        (count_in-allowed_from second rate a [] (times_under key requests) start (omega arith)
          (times_under-Rising key start requests r))
