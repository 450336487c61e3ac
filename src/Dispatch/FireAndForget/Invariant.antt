-- ===== src/Dispatch/FireAndForget/Invariant.antt =====
-- Bounds and the bookkeeping of the metrics, under every order of actions.
use resilience_kit.Prelude.{
  ℕ, ◌+◌, ◌≤◌, ◌<◌, ◌≡◌, refl, subst, Option-cases, inl, inr, true, List, [], ◌∷◌, ◌++◌, some,
  arith, max, length, length-append,
}
use resilience_kit.Dispatch.FireAndForget.{
  Worker, absent, stopped, filling, flushing, Dispatcher, in_hand, with_batch, is_spawned,
  take_more, Action, submits, gets_first, gets_more, deadline, flush_returns, flush_raises,
  flush_dies, closes, joined, timed_out, step, run,
}

unfoldable pub length_all {ℓ} : {T : Type ℓ} → List (List T) → ℕ
length_all [] = 0
length_all (b ∷ bs) = length b + length_all bs

-- Each batch that was handed to `flush` holds an event, and at most `batch_max` if that is positive.
abbrev pub Fits : {T : Type 0} → ℕ → Worker T → Type 0
Fits batch_max (filling batch) = (0 < length batch) × (length batch ≤ max 1 batch_max)
Fits batch_max (flushing batch) = (0 < length batch) × (length batch ≤ max 1 batch_max)
Fits batch_max _ = Unit

pub record IsSound {T : Type 0} (d : Dispatcher T) : Type 0 where
  pub bounded : 0 < d.queue_size → length d.queue ≤ d.queue_size
  pub fits : Fits d.batch_max d.worker
  -- `join` waits for the events that are queued, in hand or lost with a worker
  pub pending :
      is_spawned d.worker ≡ true
      → d.unfinished ≡ length d.queue + length (in_hand d.worker) + d.lost
  pub idle : d.worker ≡ absent → (d.queue ≡ []) × (d.unfinished ≡ 0) × (d.lost ≡ 0)
  pub stopped_closed : d.worker ≡ stopped → d.is_closed ≡ true

module _ {T : Type 0} where
  abbrev rest_of : List T → List T
  rest_of [] = []
  rest_of (x ∷ xs) = xs

  take_more-IsSound :
      (w : Worker T) (q : List T) (d d' : Dispatcher T)
      → d.worker ≡ w
      → d.queue ≡ q
      → take_more w q d ≡ some d'
      → IsSound d
      → IsSound d'
  take_more-IsSound (filling b) (x ∷ q) d d' e f h v = ground (arith, length-append b (x ∷ []))
  take_more-IsSound w q d d' e f h v = cc

  pub step-IsSound :
      (a : Action T) (d : Dispatcher T) (d' : Dispatcher T)
      → step a d ≡ some d'
      → IsSound d
      → IsSound d'
  unfolding step
  step-IsSound (submits e) d d' h v =
      ground (arith, length-append d.queue (e ∷ []), length-append (rest_of d.queue) (e ∷ []))
  step-IsSound gets_first d d' h v = ground arith
  step-IsSound gets_more d d' h v = take_more-IsSound d.worker d.queue d d' refl refl h v
  step-IsSound deadline d d' h v = ground arith
  step-IsSound flush_returns d d' h v = ground arith
  step-IsSound flush_raises d d' h v = ground arith
  step-IsSound flush_dies d d' h v = ground arith
  step-IsSound closes d d' h v = ground arith
  step-IsSound joined d d' h v = ground arith
  step-IsSound timed_out d d' h v = ground arith

  -- In every history of a dispatcher that starts valid: the queue keeps its bound, a batch in hand is
  -- not empty and keeps to `batch_max`, and `join` waits for what is queued, in hand or lost.
  pub run-IsSound :
      (history : List (Action T)) (d d' : Dispatcher T)
      → run history d ≡ some d'
      → IsSound d
      → IsSound d'
  unfolding run
  run-IsSound [] d d' h v = let same : d ≡ d' = cc in subst IsSound same v
  run-IsSound (a ∷ later) d d' h v = elim (Option-cases (step a d)) [
    | inl e ↦ cc
    | inr (d'', e) ↦ run-IsSound later d'' d' (ground (arith, e)) (step-IsSound a d d'' e v)
  ]

-- What the metrics count: each event that `submitted` counts is in a batch that the worker has ended
-- with, in hand or queued, and `flushed` and `flush_failed` count those batches but for the lost ones.
pub record Accounts {T : Type 0} (d : Dispatcher T) : Type 0 where
  pub handled : d.flushed + d.flush_failed + d.lost ≡ length_all d.done
  pub placed : d.submitted ≡ length_all d.done + length (in_hand d.worker) + length d.queue

module _ {T : Type 0} where
  length_all-append :
      (bs : List (List T)) (b : List T) → length_all (bs ++ b ∷ []) ≡ length_all bs + length b
  unfolding length_all
  length_all-append [] b = omega arith
  length_all-append (c ∷ bs) b = omega (arith, length_all-append bs b)

  length_all-with_batch :
      (bs : List (List T)) (b : List T) → length_all (with_batch bs b) ≡ length_all bs + length b
  length_all-with_batch bs [] = omega arith
  length_all-with_batch bs (x ∷ b) = length_all-append bs (x ∷ b)

  take_more-Accounts :
      (w : Worker T) (q : List T) (d d' : Dispatcher T)
      → d.worker ≡ w
      → d.queue ≡ q
      → take_more w q d ≡ some d'
      → Accounts d
      → Accounts d'
  take_more-Accounts (filling b) (x ∷ q) d d' e f h v = ground (arith, length-append b (x ∷ []))
  take_more-Accounts w q d d' e f h v = cc

  step-Accounts :
      (a : Action T) (d d' : Dispatcher T)
      → step a d ≡ some d'
      → IsSound d
      → Accounts d
      → Accounts d'
  unfolding step
  step-Accounts (submits e) d d' h v c =
      ground (arith, length-append d.queue (e ∷ []), length-append (rest_of d.queue) (e ∷ []))
  step-Accounts gets_more d d' h v c = take_more-Accounts d.worker d.queue d d' refl refl h c
  step-Accounts gets_first d d' h v c = ground arith
  step-Accounts deadline d d' h v c = ground arith
  step-Accounts flush_returns d d' h v c =
      ground (arith, length_all-append d.done (in_hand d.worker))
  step-Accounts flush_raises d d' h v c =
      ground (arith, length_all-append d.done (in_hand d.worker))
  step-Accounts flush_dies d d' h v c = ground (arith, length_all-append d.done (in_hand d.worker))
  step-Accounts closes d d' h v c = ground arith
  step-Accounts joined d d' h v c = ground (arith, length_all-with_batch d.done (in_hand d.worker))
  step-Accounts timed_out d d' h v c =
      ground (arith, length_all-with_batch d.done (in_hand d.worker))

  -- In every history of a valid dispatcher whose metrics account for its events, they go on to.
  pub run-Accounts :
      (history : List (Action T)) (d d' : Dispatcher T)
      → run history d ≡ some d'
      → IsSound d
      → Accounts d
      → Accounts d'
  unfolding run
  run-Accounts [] d d' h v c = let same : d ≡ d' = cc in subst Accounts same c
  run-Accounts (a ∷ later) d d' h v c = elim (Option-cases (step a d)) [
    | inl e ↦ cc
    | inr (d'', e) ↦
        run-Accounts later d'' d' (ground (arith, e)) (step-IsSound a d d'' e v)
          (step-Accounts a d d'' e v c)
  ]
