-- ===== src/Recovery/Monitor.antt =====
-- recovery.py: the life of the task of `RecoveryMonitor`.
--
-- Tasks are numbered as they are spawned, and a loop is a number. `stop` awaits a task between its
-- two parts, so callers and tasks are a sequence of atomic `Action`s; `step` is `none` where an
-- action cannot happen. `_stopping` is read through the object, so one flag is enough: a task looks
-- at the event that is there when it wakes. What a task does at each wake is `attempt_recover_all`.
-- There is one stop at a time.
pub mod Tracked
mod Samples
use resilience_kit.Prelude.{
  ℕ, ◌+◌, Bool, true, false, ◌&&◌, not, List, [], ◌∷◌, Option, none, some, ◌==◌, if◌then◌else◌,
}

pub record Monitor : Type 0 where
  pub task : Option ℕ
  pub is_stopping : Bool
  -- of each task
  pub loop_of : ℕ → ℕ
  pub is_done : ℕ → Bool
  pub next : ℕ
  -- the task that `stop` awaits
  pub awaited : Option ℕ

abbrev pub new : Monitor
new = record {
  task = none;
  is_stopping = false;
  loop_of = λ id. 0;
  is_done = λ id. false;
  next = 0;
  awaited = none;
}

unfoldable pub spawn : ℕ → Monitor → Monitor
spawn loop m = record m {
  task = some m.next;
  is_stopping = false;
  loop_of = λ id. if id == m.next then loop else m.loop_of id;
  next = m.next + 1;
}

unfoldable pub start : ℕ → Monitor → Monitor
unfolding spawn
start loop m = elim m.task [
  | none ↦ spawn loop m
  | some existing ↦
      if not (m.is_done existing) && (m.loop_of existing == loop) then m else spawn loop m
]

-- Whether the caller runs in the loop of a task.
abbrev pub is_loop : Option ℕ → ℕ → Bool
is_loop none loop = false
is_loop (some current) loop = loop == current

-- `stop`, up to its `await`.
unfoldable pub stop : Option ℕ → Monitor → Monitor
stop current m = elim m.task [
  | none ↦ m
  | some task ↦
      if is_loop current (m.loop_of task)
      then record m { is_stopping = true; awaited = some task }
      else record m { task = none }
]

unfoldable pub finish : ℕ → Monitor → Monitor
finish task m = record m { is_done = λ id. if id == task then true else m.is_done id }

pub data Action : Type 0 where
  starts : ℕ → Action
  stops : Option ℕ → Action
  -- a task finds `_stopping` set
  ends : ℕ → Action
  -- the wait is over, or the task that it cancels is
  stop_returns stop_times_out : Action

unfoldable pub step : Action → Monitor → Option Monitor
unfolding start stop finish
step (starts loop) m = some (start loop m)
step (stops current) m = elim m.awaited [ none ↦ some (stop current m) | some task ↦ none ]
step (ends task) m = if m.is_stopping then some (finish task m) else none
step stop_returns m = elim m.awaited [
  | none ↦ none
  | some task ↦ if m.is_done task then some (record m { task = none; awaited = none }) else none
]
step stop_times_out m = elim m.awaited [
  | none ↦ none
  | some task ↦ some (record (finish task m) { task = none; awaited = none })
]
