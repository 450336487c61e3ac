-- ===== src/Tasks/Samples.antt =====
-- Three tasks in two batches, and the theorem at them.
use resilience_kit.Prelude.{
  ℕ, zero, suc, ◌+◌, String, true, List, [], ◌∷◌, Option, none, some, ◌≡◌, refl, subst,
}
use resilience_kit.Prelude.Dict
use resilience_kit.Exceptions.{Exn, known, exception, value_error, isinstance, issubclass, raised}
use resilience_kit.Tasks.{
  TaskCall, Handlers, Flushed, not_registered, already_registered, register, submit, get_queue,
  flush_batches,
}
use resilience_kit.Tasks.Batches.{RaisesExceptions}
use resilience_kit.Tasks.Queue.{closed_queue-run}
use resilience_kit.Dispatch.FireAndForget
use resilience_kit.Dispatch.FireAndForget.{
  Dispatcher, Action, submits, gets_first, gets_more, deadline, flush_returns, closes, waiting,
  cancel, step, run,
}
use resilience_kit.Dispatch.FireAndForget.Order.{accepted}

abbrev bad_value : Exn
bad_value = record { cls = known value_error; payload = 0 }

-- Handler 0 adds its argument, any other raises.
abbrev run_handler : ℕ → ℕ → ℕ → ℕ × Option Exn
run_handler zero args s = (s + args, none)
run_handler (suc h) args s = (s, some bad_value)

run_handler-RaisesExceptions : RaisesExceptions run_handler
unfolding issubclass
run_handler-RaisesExceptions zero args s e h = cc
run_handler-RaisesExceptions (suc handler) args s e h =
    subst (λ o. elim o [ none ↦ Unit | some e ↦ isinstance e (known exception) ≡ true ]) h refl

abbrev handlers : Handlers
handlers = ("add", 0) ∷ ("fail", 1) ∷ []

abbrev task : String → ℕ → TaskCall
task name n = record { name = name; args = n }

abbrev batches : List (List TaskCall)
batches = (task "add" 2 ∷ task "fail" 0 ∷ []) ∷ (task "gone" 0 ∷ task "add" 5 ∷ []) ∷ []

abbrev start : Flushed ℕ
start = record { env = 1; unknown = []; failed = [] }

metered :
    flush_batches run_handler handlers batches start
    ≡ (record { env = 8; unknown = "gone" ∷ []; failed = "fail" ∷ [] }, none)
unfolding flush_batches Dict.get issubclass
metered = refl

-- A name that is registered for another handler is refused, and so is a task of an unknown name.
refused :
    (register "add" 3 handlers ≡ (handlers, some already_registered))
    × (submit (task "gone" 0) handlers none ≡ (none, raised not_registered))
unfolding register submit Dict.get
refused = (refl, refl)

-- Two tasks go in one batch, a third in the next, and the queue is closed.
abbrev history : List (Action TaskCall)
history =
    submits (task "add" 2)
    ∷ submits (task "fail" 0)
    ∷ gets_first
    ∷ gets_more
    ∷ deadline
    ∷ submits (task "add" 5)
    ∷ flush_returns
    ∷ gets_first
    ∷ closes
    ∷ deadline
    ∷ flush_returns
    ∷ []

abbrev drained : Dispatcher TaskCall
drained = record (get_queue none) {
  worker = waiting;
  is_closed = true;
  done = (task "add" 2 ∷ task "fail" 0 ∷ []) ∷ (task "add" 5 ∷ []) ∷ [];
  submitted = 3;
  flushed = 3;
}

closed_queue-run_example :
    ((flush_batches run_handler handlers drained.done start).1 ≡ none)
    × ((flush_batches run_handler handlers drained.done start).0.env ≡ 8)
unfolding get_queue run step FireAndForget.new Dict.get accepted
    resilience_kit.Dispatch.FireAndForget.Order.accepts
closed_queue-run_example =
    closed_queue-run run_handler handlers history drained (cancel drained) start
      run_handler-RaisesExceptions refl refl
