-- ===== src/Tasks/Queue.antt =====
-- What a queue of tasks has done when it is closed.
use resilience_kit.Prelude.{
  ℕ, List, [], ◌++◌, concat, Option, none, some, ◌≡◌, refl, ap, ◌∙◌, arith,
}
use resilience_kit.Exceptions.{Exn}
use resilience_kit.Dispatch.FireAndForget
use resilience_kit.Dispatch.FireAndForget.{drop_newest, Dispatcher, Action, joined, step, run}
use resilience_kit.Dispatch.FireAndForget.Invariant.{IsSound, run-IsSound}
use resilience_kit.Dispatch.FireAndForget.Order.{contents, accepted, run-contents, joined-contents}
use resilience_kit.Tasks.{TaskCall, Handlers, get_queue, Flushed, flush_batches}
use resilience_kit.Tasks.Batches.{RaisesExceptions, all_run, flush_batches-done}

abbrev fresh : Dispatcher TaskCall
fresh = get_queue none

fresh-IsSound : IsSound fresh
unfolding get_queue FireAndForget.new
fresh-IsSound = ground arith

fresh-overflow : fresh.overflow ≡ drop_newest
unfolding get_queue FireAndForget.new
fresh-overflow = refl

fresh-contents : contents fresh ≡ []
unfolding get_queue FireAndForget.new contents
fresh-contents = refl

-- Whatever tasks are submitted, at whatever moments of the worker, and whatever Exceptions the handlers
-- raise: once `aclose` has seen the queue empty, the handlers of all accepted tasks whose names are registered
-- have run, each once, in the order of submission, and nothing got out of the flushes.
pub closed_queue-run :
    {S : Type 0} (run_handler : ℕ → ℕ → S → S × Option Exn) (handlers : Handlers)
    (history : List (Action TaskCall)) (d d' : Dispatcher TaskCall) (w : Flushed S)
    → RaisesExceptions run_handler
    → run history fresh ≡ some d
    → step joined d ≡ some d'
    → ((flush_batches run_handler handlers d'.done w).1 ≡ none)
      × ((flush_batches run_handler handlers d'.done w).0.env
          ≡ all_run run_handler handlers (accepted history fresh) w.env)
closed_queue-run run_handler handlers history d d' w h ran closed =
    let sound = run-IsSound history fresh d ran fresh-IsSound in
    let order = run-contents history fresh d fresh-overflow fresh-IsSound ran in
    let done : concat d'.done ≡ accepted history fresh =
      joined-contents d d' closed sound
      ∙ order
      ∙ ap (λ l. l ++ accepted history fresh) fresh-contents in
    let (quiet, env) = flush_batches-done run_handler handlers h d'.done w in
    (quiet, env ∙ ap (λ tasks. all_run run_handler handlers tasks w.env) done)
