-- ===== src/Dispatch/FireAndForget/Order.antt =====
-- The order of events, what each `submit` counts, and what `aclose` leaves.
use mathlib.Core.List.{append_assoc, append-nil}
use resilience_kit.Prelude.{
  ◌+◌, ◌≡◌, refl, ap, ap₂, sym, ◌∙◌, subst, Option-cases, ◌⊎◌, inl, inr, Bool, true, false, List,
  [], ◌∷◌, ◌++◌, none, some, arith, length, concat, if◌then◌else◌,
}
use resilience_kit.Dispatch.FireAndForget.{
  drop_newest, Worker, filling, flushing, Dispatcher, in_hand, with_batch, take_more, end_flush,
  end_worker, cancel, submit, Action, submits, gets_more, flush_returns, flush_raises, flush_dies,
  joined, timed_out, step, run,
}
use resilience_kit.Dispatch.FireAndForget.Invariant.{IsSound, step-IsSound, Accounts}

module _ {T : Type 0} where
  concat-append : (bs : List (List T)) (b : List T) → concat (bs ++ b ∷ []) ≡ concat bs ++ b
  concat-append [] b = simp append-nil
  concat-append (c ∷ bs) b = simp (concat-append bs b, append_assoc)

  -- The events that the dispatcher has taken and not dropped: those of the batches that the worker has
  -- ended with, of the one in hand, and of the queue.
  unfoldable pub contents : Dispatcher T → List T
  contents d = concat d.done ++ (in_hand d.worker ++ d.queue)

  -- The event that an action submits, if it is accepted.
  unfoldable pub accepts : Action T → Dispatcher T → List T
  accepts (submits e) d = elim (submit e d) [
    | none ↦ []
    | some (d', ok) ↦ if ok then e ∷ [] else []
  ]
  accepts _ d = []

  unfoldable pub accepted : List (Action T) → Dispatcher T → List T
  accepted [] d = []
  accepted (a ∷ later) d = elim (step a d) [
    | none ↦ []
    | some d' ↦ accepts a d ++ accepted later d'
  ]

  regroup : (a b q e : List T) → (a ++ (b ++ q)) ++ e ≡ a ++ (b ++ (q ++ e))
  regroup a b q e = simp append_assoc

  submits-contents :
      (e : T) (d d' : Dispatcher T)
      → d.overflow ≡ drop_newest
      → step (submits e) d ≡ some d'
      → contents d' ≡ contents d ++ accepts (submits e) d
  unfolding step contents accepts
  submits-contents e d d' p h = ground (
    arith,
    regroup (concat d.done) (in_hand d.worker) d.queue (e ∷ []),
    append-nil (concat d.done ++ (in_hand d.worker ++ d.queue)),
  )

  take_more-contents :
      (w : Worker T) (q : List T) (d d' : Dispatcher T)
      → d.worker ≡ w
      → d.queue ≡ q
      → take_more w q d ≡ some d'
      → contents d' ≡ contents d
  unfolding contents
  take_more-contents (filling b) (x ∷ q) d d' e f h = ground (arith, append_assoc b (x ∷ []) q)
  take_more-contents w q d d' e f h = cc

  end_flush-contents :
      (ok : Bool) (w : Worker T) (d d' : Dispatcher T)
      → d.worker ≡ w
      → end_flush ok w d ≡ some d'
      → contents d' ≡ contents d
  unfolding contents
  end_flush-contents ok (flushing b) d d' e h =
      ground (arith, concat-append d.done b, append_assoc (concat d.done) b d.queue)
  end_flush-contents ok w d d' e h = cc

  end_worker-contents :
      (w : Worker T) (d d' : Dispatcher T)
      → d.worker ≡ w
      → end_worker w d ≡ some d'
      → contents d' ≡ contents d
  unfolding contents
  end_worker-contents (flushing b) d d' e h =
      ground (arith, concat-append d.done b, append_assoc (concat d.done) b d.queue)
  end_worker-contents w d d' e h = cc

  concat-with_batch : (bs : List (List T)) (b : List T) → concat (with_batch bs b) ≡ concat bs ++ b
  concat-with_batch bs [] = sym (append-nil (concat bs))
  concat-with_batch bs (x ∷ b) = concat-append bs (x ∷ b)

  cancel-contents : (d : Dispatcher T) → contents (cancel d) ≡ contents d
  unfolding contents
  cancel-contents d =
      ap (λ l. l ++ d.queue) (concat-with_batch d.done (in_hand d.worker))
      ∙ append_assoc (concat d.done) (in_hand d.worker) d.queue

  step-contents :
      (a : Action T) (d d' : Dispatcher T)
      → d.overflow ≡ drop_newest
      → IsSound d
      → step a d ≡ some d'
      → contents d' ≡ contents d ++ accepts a d
  unfolding step accepts contents
  step-contents (submits e) d d' p v h = submits-contents e d d' p h
  step-contents gets_more d d' p v h =
      take_more-contents d.worker d.queue d d' refl refl h ∙ sym (append-nil (contents d))
  step-contents flush_returns d d' p v h =
      ground (arith, end_flush-contents true d.worker d d' refl, append-nil (contents d))
  step-contents flush_raises d d' p v h =
      ground (arith, end_flush-contents false d.worker d d' refl, append-nil (contents d))
  step-contents flush_dies d d' p v h =
      ground (arith, end_worker-contents d.worker d d' refl, append-nil (contents d))
  step-contents joined d d' p v h = ground (arith, cancel-contents d, append-nil (contents d))
  step-contents timed_out d d' p v h = ground (
    arith,
    cancel-contents (record d { dropped = d.dropped + length d.queue }),
    append-nil (contents d),
  )
  step-contents _ d d' p v h = ground (arith, append-nil (contents d))

  step-overflow :
      (a : Action T) (d d' : Dispatcher T) → step a d ≡ some d' → d'.overflow ≡ d.overflow
  unfolding step
  step-overflow (submits e) d d' h = ground arith
  step-overflow _ d d' h = ground arith

  -- Under `DROP_NEWEST`, in every history of a valid dispatcher: the events of the batches that the
  -- worker has ended with, of the batch in hand and of the queue are, in this order, those that it
  -- held at first and then those whose `submit` returned `True`, in the order of submission, each
  -- once. A batch that the worker has ended with was flushed, was refused by `flush`, or was lost with
  -- the worker, when `flush` raised no `Exception` or `aclose` ran into its timeout.
  pub run-contents :
      (history : List (Action T)) (d d' : Dispatcher T)
      → d.overflow ≡ drop_newest
      → IsSound d
      → run history d ≡ some d'
      → contents d' ≡ contents d ++ accepted history d
  unfolding run accepted
  run-contents [] d d' p v h =
      let same : d ≡ d' = cc in
      subst (λ d''. contents d'' ≡ contents d ++ []) same (sym (append-nil (contents d)))
  run-contents (a ∷ later) d d' p v h = elim (Option-cases (step a d)) [
    | inl e ↦ cc
    | inr (d'', e) ↦
        let ih =
          run-contents later d'' d' (step-overflow a d d'' e ∙ p) (step-IsSound a d d'' e v)
            (ground (arith, e)) in
        ground (
          arith,
          e,
          ih,
          step-contents a d d'' p v e,
          append_assoc (contents d) (accepts a d) (accepted later d''),
        )
  ]

  -- Every `submit` on an open dispatcher is counted once, as submitted or as dropped, under either
  -- policy. It returns `False` only under `DROP_NEWEST`, with the queue as it was; under `DROP_OLDEST`
  -- a full queue takes the event as well, in place of its oldest, and `True` is returned.
  submit_counts :
      (e : T) (d d' : Dispatcher T) (ok : Bool)
      → submit e d ≡ some (d', ok)
      → (d'.submitted + d'.dropped ≡ d.submitted + d.dropped + 1)
        × ((ok ≡ true) ⊎ ((d.overflow ≡ drop_newest) × (d'.queue ≡ d.queue)))
  unfolding submit
  submit_counts e d d' ok h = ground arith

  -- A close that was not cut short has drained the dispatcher: nothing is queued or was in the hand
  -- of the worker, and every submitted event was flushed or is counted in `flush_failed`.
  joined_drains :
      (d d' : Dispatcher T)
      → step joined d ≡ some d'
      → IsSound d
      → Accounts d
      → (d'.queue ≡ []) × (d'.lost ≡ 0) × (d'.submitted ≡ d'.flushed + d'.flush_failed)
  unfolding step
  joined_drains d d' h v c = ground arith

  -- The batches that the worker has ended with are then all that the dispatcher took.
  pub joined-contents :
      (d d' : Dispatcher T) → step joined d ≡ some d' → IsSound d → concat d'.done ≡ contents d
  unfolding step contents
  joined-contents d d' h v =
      let queue : d.queue ≡ [] = ground arith in
      let hand : in_hand d.worker ≡ [] = ground arith in
      let done : d'.done ≡ d.done = ground arith in
      ap concat done
      ∙ sym (append-nil (concat d.done))
      ∙ ap (λ l. concat d.done ++ l) (sym (ap₂ (λ a l. a ++ l) hand queue))

  -- One that ran into the timeout adds the queued events alone to `dropped`: of the submitted ones,
  -- those in the batch in hand are in no counter, nor are those lost with a worker before.
  timed_out_loses :
      (d d' : Dispatcher T)
      → step timed_out d ≡ some d'
      → IsSound d
      → Accounts d
      → (d'.dropped ≡ d.dropped + length d.queue)
        × (d'.submitted
            ≡ d'.flushed + d'.flush_failed + length d.queue + length (in_hand d.worker) + d.lost)
  unfolding step
  timed_out_loses d d' h v c = ground arith
