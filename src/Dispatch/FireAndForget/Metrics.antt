-- ===== src/Dispatch/FireAndForget/Metrics.antt =====
-- What the four metrics add up to.
use resilience_kit.Prelude.{
  ℕ, ◌+◌, ◌≡◌, Option-cases, inl, inr, List, [], ◌∷◌, none, some, arith, length,
}
use resilience_kit.Dispatch.FireAndForget.{
  Dispatcher, in_hand, Action, submits, timed_out, step, run,
}
use resilience_kit.Dispatch.FireAndForget.Invariant.{IsSound, Accounts, run-Accounts}

module _ {T : Type 0} where
  -- How many calls of `submit` a history has.
  unfoldable pub calls : List (Action T) → ℕ
  calls [] = 0
  calls (submits e ∷ later) = 1 + calls later
  calls (_ ∷ later) = calls later

  -- How many events are queued when `aclose` runs into its timeout, if a history has that.
  abbrev pub queued_at : Action T → Dispatcher T → ℕ
  queued_at timed_out d = length d.queue
  queued_at _ d = 0

  unfoldable pub cut_off : List (Action T) → Dispatcher T → ℕ
  cut_off [] d = 0
  cut_off (a ∷ later) d = elim (step a d) [ none ↦ 0 | some d' ↦ queued_at a d + cut_off later d' ]

  step-counted :
      (a : Action T) (d d' : Dispatcher T)
      → step a d ≡ some d'
      → d'.submitted + d'.dropped ≡ d.submitted + d.dropped + calls (a ∷ []) + queued_at a d
  unfolding step calls
  step-counted (submits e) d d' h = ground arith
  step-counted _ d d' h = ground arith

  calls-cons :
      (a : Action T) (later : List (Action T)) → calls (a ∷ later) ≡ calls (a ∷ []) + calls later
  unfolding calls
  calls-cons (submits e) later = omega arith
  calls-cons _ later = omega arith

  run-dropped :
      (history : List (Action T)) (d d' : Dispatcher T)
      → run history d ≡ some d'
      → d'.submitted + d'.dropped ≡ d.submitted + d.dropped + calls history + cut_off history d
  unfolding run cut_off calls
  run-dropped [] d d' h = ground arith
  run-dropped (a ∷ later) d d' h = elim (Option-cases (step a d)) [
    | inl e ↦ cc
    | inr (d'', e) ↦ ground (
      arith,
      e,
      step-counted a d d'' e,
      calls-cons a later,
      run-dropped later d'' d' (ground (arith, e)),
    )
  ]

  -- In every history of a valid dispatcher whose metrics are right at first: each call of `submit` is
  -- counted once, as submitted or as dropped, and `dropped` counts beside that the events that
  -- are queued when `aclose` runs into its timeout. The submitted events are those that
  -- `flushed` and `flush_failed` count, those lost with a worker, which no metric counts, those in
  -- hand and those queued.
  pub run-counted :
      (history : List (Action T)) (d d' : Dispatcher T)
      → run history d ≡ some d'
      → IsSound d
      → Accounts d
      → (d'.submitted + d'.dropped ≡ d.submitted + d.dropped + calls history + cut_off history d)
        × (d'.submitted
            ≡ d'.flushed + d'.flush_failed + d'.lost + length (in_hand d'.worker) + length d'.queue)
  run-counted history d d' h v c =
      let c' = run-Accounts history d d' h v c in
      (run-dropped history d d' h, omega (arith, c'.handled, c'.placed))
