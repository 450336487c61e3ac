-- ===== src/Tasks.antt =====
-- tasks/registry.py and tasks/queue.py.
--
-- A handler is a number, the same for the same object; its call moves a state `S`. The arguments of a
-- task are a number. The two metrics are the names that they were sent with. A handler that registers
-- another is left out, and so are locks and log lines.
pub mod Batches
pub mod Queue
mod Samples
use resilience_kit.Prelude.{
  ℕ, String, Bool, List, [], ◌∷◌, ◌++◌, Option, none, some, ◌==◌, if◌then◌else◌,
}
use resilience_kit.Prelude.Dict
use resilience_kit.Prelude.Dict.{Dict}
use resilience_kit.Exceptions.{
  Exn, Outcome, returned, raised, known, exception, key_error, value_error, runtime_error,
  isinstance,
}
use resilience_kit.Dispatch.FireAndForget
use resilience_kit.Dispatch.FireAndForget.{Dispatcher, drop_newest}

pub record TaskCall : Type 0 where
  pub name : String
  pub args : ℕ

-- `_handlers`
abbrev pub Handlers : Type 0
Handlers = Dict ℕ

abbrev pub not_registered : Exn
not_registered = record { cls = known key_error; payload = 0 }

abbrev pub already_registered : Exn
already_registered = record { cls = known value_error; payload = 0 }

-- `register`, and the exception that it raises, if any.
unfoldable pub register : String → ℕ → Handlers → Handlers × Option Exn
register name func handlers = elim (Dict.get handlers name) [
  | none ↦ (Dict.put handlers name func, none)
  | some existing ↦
      if existing == func
      then (Dict.put handlers name func, none)
      else (handlers, some already_registered)
]

unfoldable pub get_handler : String → Handlers → Outcome ℕ
get_handler name handlers = elim (Dict.get handlers name) [
  | none ↦ raised not_registered
  | some handler ↦ returned handler
]

-- `get_queue`, of the variable `_queue`.
unfoldable pub get_queue : Option (Dispatcher TaskCall) → Dispatcher TaskCall
unfolding FireAndForget.new
get_queue none = FireAndForget.new 10000 100 drop_newest
get_queue (some queue) = queue

-- `submit`, over the variable `_queue`.
unfoldable pub submit :
    TaskCall → Handlers → Option (Dispatcher TaskCall) → Option (Dispatcher TaskCall) × Outcome Bool
unfolding get_handler get_queue
submit call handlers queue = elim (get_handler call.name handlers) [
  | raised e ↦ (queue, raised e)
  | returned handler ↦ elim (FireAndForget.submit call (get_queue queue)) [
    | none ↦ (some (get_queue queue), raised (record { cls = known runtime_error; payload = 0 }))
    | some (queue', accepted) ↦ (some queue', returned accepted)
  ]
]

pub record Flushed (S : Type 0) : Type 0 where
  pub env : S
  -- of the metrics tasks.unknown and tasks.failed, the latest first
  pub unknown : List String
  pub failed : List String

module _ {S : Type 0} (run_handler : ℕ → ℕ → S → S × Option Exn) where
  -- The `await` of a handler: the exception that gets through, if any.
  unfoldable pub run_task : ℕ → TaskCall → Flushed S → Flushed S × Option Exn
  run_task handler call w =
      let (env', out) = run_handler handler call.args w.env in
      let w' = record w { env = env' } in
      elim out [
        | none ↦ (w', none)
        | some e ↦
            if isinstance e (known exception)
            then (record w' { failed = call.name ∷ w.failed }, none)
            else (w', some e)
      ]

module _ {S : Type 0} (run_handler : ℕ → ℕ → S → S × Option Exn) (handlers : Handlers) where
  -- `_flush_batch`
  unfoldable pub flush_batch : List TaskCall → Flushed S → Flushed S × Option Exn
  unfolding get_handler run_task
  flush_batch [] w = (w, none)
  flush_batch (call ∷ batch) w =
      let rest = flush_batch batch in
      elim (get_handler call.name handlers) [
        | raised e ↦ rest (record w { unknown = call.name ∷ w.unknown })
        | returned handler ↦
            let (w', out) = run_task run_handler handler call w in
            elim out [ none ↦ rest w' | some e ↦ (w', some e) ]
      ]

  -- The batches that the dispatcher hands over, one after another.
  unfoldable pub flush_batches : List (List TaskCall) → Flushed S → Flushed S × Option Exn
  unfolding flush_batch
  flush_batches [] w = (w, none)
  flush_batches (batch ∷ batches) w =
      let rest = flush_batches batches in
      let (w', out) = flush_batch batch w in elim out [ none ↦ rest w' | some e ↦ (w', some e) ]

-- `reset_tasks` and `reset_registry`
unfoldable pub reset_tasks : Option (Dispatcher TaskCall) → Option (Dispatcher TaskCall)
reset_tasks queue = none

unfoldable pub reset_registry : Handlers → Handlers
reset_registry handlers = []
