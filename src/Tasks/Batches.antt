-- ===== src/Tasks/Batches.antt =====
-- Every task is run once, however the dispatcher cuts them into batches.
use resilience_kit.Prelude.{
  concat, ℕ, true, List, [], ◌∷◌, ◌++◌, Option, none, some, Option-cases, inl, inr, ◌≡◌, refl,
  arith,
}
use resilience_kit.Prelude.Dict
use resilience_kit.Exceptions.{Exn, known, exception, isinstance}
use resilience_kit.Tasks.{
  TaskCall, Handlers, get_handler, Flushed, run_task, flush_batch, flush_batches,
}

-- A handler that raises raises an Exception.
abbrev pub RaisesExceptions : {S : Type 0} → (ℕ → ℕ → S → S × Option Exn) → Type 0
RaisesExceptions {S} run_handler =
    (handler args : ℕ) (s : S) (e : Exn)
    → (run_handler handler args s).1 ≡ some e
    → isinstance e (known exception) ≡ true

module _ {S : Type 0} (run_handler : ℕ → ℕ → S → S × Option Exn) (handlers : Handlers) where
  -- The handlers of the tasks that are registered, one after another.
  abbrev pub all_run : List TaskCall → S → S
  all_run [] s = s
  all_run (call ∷ calls) s = elim (Dict.get handlers call.name) [
    | none ↦ all_run calls s
    | some handler ↦ all_run calls (run_handler handler call.args s).0
  ]

  run_task-done :
      RaisesExceptions run_handler
      → (handler : ℕ) (call : TaskCall) (w : Flushed S)
      → ((run_task run_handler handler call w).1 ≡ none)
        × ((run_task run_handler handler call w).0.env ≡ (run_handler handler call.args w.env).0)
  unfolding run_task
  run_task-done h handler call w = elim (Option-cases (run_handler handler call.args w.env).1) [
    | inl k ↦ (ground (arith, k), ground (arith, k))
    | inr (e, k) ↦
        let j = h handler call.args w.env e k in (ground (arith, k, j), ground (arith, k, j))
  ]

  flush_batch-done :
      RaisesExceptions run_handler
      → (batch : List TaskCall) (w : Flushed S)
      → ((flush_batch run_handler handlers batch w).1 ≡ none)
        × ((flush_batch run_handler handlers batch w).0.env ≡ all_run batch w.env)
  unfolding flush_batch get_handler
  flush_batch-done h [] w = (refl, refl)
  flush_batch-done h (call ∷ batch) w = elim (Option-cases (Dict.get handlers call.name)) [
    | inl k ↦
        let ih = flush_batch-done h batch (record w { unknown = call.name ∷ w.unknown }) in
        (ground (arith, k, ih), ground (arith, k, ih))
    | inr (handler, k) ↦
        let (quiet, env) = run_task-done h handler call w in
        let ih = flush_batch-done h batch (run_task run_handler handler call w).0 in
        (ground (arith, k, quiet, ih), ground (arith, k, quiet, env, ih))
  ]

  all_run-append :
      (xs ys : List TaskCall) (s : S) → all_run (xs ++ ys) s ≡ all_run ys (all_run xs s)
  all_run-append [] ys s = refl
  all_run-append (call ∷ xs) ys s = elim (Option-cases (Dict.get handlers call.name)) [
    | inl k ↦ ground (arith, k, all_run-append xs ys s)
    | inr (handler, k) ↦ ground (arith, k, all_run-append xs ys (run_handler handler call.args s).0)
  ]

  -- Whatever Exceptions the handlers raise, nothing gets out of the flushes, and every task of a
  -- registered name is run once, in order, however the tasks are cut into batches.
  pub flush_batches-done :
      RaisesExceptions run_handler
      → (batches : List (List TaskCall)) (w : Flushed S)
      → ((flush_batches run_handler handlers batches w).1 ≡ none)
        × ((flush_batches run_handler handlers batches w).0.env ≡ all_run (concat batches) w.env)
  unfolding flush_batches
  flush_batches-done h [] w = (refl, refl)
  flush_batches-done h (batch ∷ batches) w =
      let (quiet, env) = flush_batch-done h batch w in
      let ih = flush_batches-done h batches (flush_batch run_handler handlers batch w).0 in
      (
        ground (arith, quiet, ih),
        ground (arith, quiet, env, ih, all_run-append batch (concat batches) w.env),
      )
