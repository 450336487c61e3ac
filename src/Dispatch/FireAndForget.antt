-- ===== src/Dispatch/FireAndForget.antt =====
-- dispatch/fire_and_forget.py: the class `FireAndForget`.
--
-- The event loop runs one piece of code between two awaits, so submitters, the worker and `aclose`
-- are a sequence of atomic `Action`s, in any order that the loop chooses; `step` is `none` where an
-- action cannot happen. A `Dispatcher` holds the fields of the object, of its `asyncio.Queue` (the
-- items, oldest first, and the count that `join` waits on) and of its worker (the batch in hand), and
-- the four metrics. Two fields are kept beside them: the batches that the worker has ended with, in
-- order, and how many of their events were lost with a worker, one that `aclose` cancelled or that a
-- `flush` ended by raising what is no `Exception`. Times enter as the choice of `deadline` and
-- `timed_out`. Context variables and log lines are left out.
pub mod Invariant
pub mod Order
pub mod Metrics
mod Samples
use resilience_kit.Prelude.{
  ℕ, zero, suc, ◌+◌, ◌-◌, Bool, true, false, ◌&&◌, List, [], ◌∷◌, ◌++◌, Option, none, some, ltb,
  leb, ◌==◌, length, if◌then◌else◌,
}

pub data OverflowPolicy : Type 0 where
  drop_newest drop_oldest : OverflowPolicy

-- Where the worker is: not spawned, awaiting the first event of a batch, filling a batch, in
-- `flush`, ended by an exception of `flush`, or cancelled.
pub data Worker (T : Type 0) : Type 0 where
  absent waiting dead stopped : Worker T
  filling flushing : List T → Worker T

pub record Dispatcher (T : Type 0) : Type 0 where
  pub queue_size : ℕ
  pub batch_max : ℕ
  pub overflow : OverflowPolicy
  pub queue : List T
  pub unfinished : ℕ
  pub worker : Worker T
  pub is_closed : Bool
  pub done : List (List T)
  pub lost : ℕ
  pub submitted : ℕ
  pub dropped : ℕ
  pub flushed : ℕ
  pub flush_failed : ℕ

abbrev pub in_hand : {T : Type 0} → Worker T → List T
in_hand (filling batch) = batch
in_hand (flushing batch) = batch
in_hand _ = []

-- Whether `aclose` finds a task to wait for, alive or ended.
abbrev pub is_spawned : {T : Type 0} → Worker T → Bool
is_spawned absent = false
is_spawned stopped = false
is_spawned _ = true

-- The batches that a worker has ended with, once it is cancelled.
abbrev pub with_batch : {T : Type 0} → List (List T) → List T → List (List T)
with_batch done [] = done
with_batch done (event ∷ batch) = done ++ (event ∷ batch) ∷ []

module _ {T : Type 0} where
  unfoldable pub new : ℕ → ℕ → OverflowPolicy → Dispatcher T
  new queue_size batch_max overflow = record {
    queue_size = queue_size;
    batch_max = batch_max;
    overflow = overflow;
    queue = [];
    unfinished = 0;
    worker = absent;
    is_closed = false;
    done = [];
    lost = 0;
    submitted = 0;
    dropped = 0;
    flushed = 0;
    flush_failed = 0;
  }

  -- `asyncio.Queue.full`: a size of 0 is no bound.
  abbrev pub is_full : Dispatcher T → Bool
  is_full d = ltb 0 d.queue_size && leb d.queue_size (length d.queue)

  abbrev pub spawned : Worker T → Worker T
  spawned absent = waiting
  spawned dead = waiting
  spawned stopped = waiting
  spawned w = w

  unfoldable pub ensure_started : Dispatcher T → Dispatcher T
  ensure_started d = record d { worker = spawned d.worker }

  abbrev pub put_nowait : T → Dispatcher T → Dispatcher T
  put_nowait event d = record d { queue = d.queue ++ event ∷ []; unfinished = d.unfinished + 1 }

  -- `get_nowait` and `task_done`, with `QueueEmpty` suppressed.
  abbrev pub discard_oldest : List T → Dispatcher T → Dispatcher T
  discard_oldest [] d = d
  discard_oldest (oldest ∷ rest) d = record d { queue = rest; unfinished = d.unfinished - 1 }

  unfoldable pub handle_overflow : T → Dispatcher T → Dispatcher T × Bool
  handle_overflow event d =
      let d' = record d { dropped = d.dropped + 1 } in
      elim d.overflow [
        | drop_oldest ↦ (put_nowait event (discard_oldest d.queue d'), true)
        | drop_newest ↦ (d', false)
      ]

  -- `submit`; `none` is the `RuntimeError` of a closed dispatcher.
  unfoldable pub submit : T → Dispatcher T → Option (Dispatcher T × Bool)
  unfolding ensure_started handle_overflow
  submit event d =
      if d.is_closed
      then none
      else let d' = ensure_started d in
        some (
          if is_full d'
          then handle_overflow event d'
          else (record (put_nowait event d') { submitted = d'.submitted + 1 }, true))

  -- `first = await self._queue.get()`
  abbrev pub take_first : Worker T → List T → Dispatcher T → Option (Dispatcher T)
  take_first waiting (first ∷ rest) d =
      some (record d { queue = rest; worker = filling (first ∷ []) })
  take_first _ _ d = none

  -- One round of `_fill_batch` that gets an event.
  abbrev pub take_more : Worker T → List T → Dispatcher T → Option (Dispatcher T)
  take_more (filling batch) (event ∷ rest) d =
      if ltb (length batch) d.batch_max
      then some (record d { queue = rest; worker = filling (batch ++ event ∷ []) })
      else none
  take_more _ _ d = none

  -- `_fill_batch` returns, at its deadline or with a full batch.
  abbrev pub stop_filling : Worker T → Dispatcher T → Option (Dispatcher T)
  stop_filling (filling batch) d = some (record d { worker = flushing batch })
  stop_filling _ d = none

  -- `_flush_batch` ends, with `flush` returning or raising an `Exception`, and the batch is marked done.
  abbrev pub end_flush : Bool → Worker T → Dispatcher T → Option (Dispatcher T)
  end_flush ok (flushing batch) d =
      let n = length batch in
      some (record d {
        worker = waiting;
        unfinished = d.unfinished - n;
        done = d.done ++ batch ∷ [];
        flushed = if ok then d.flushed + n else d.flushed;
        flush_failed = if ok then d.flush_failed else d.flush_failed + n;
      })
  end_flush ok _ d = none

  -- `flush` raises what is no `Exception`: nothing is marked done, and the worker ends.
  abbrev pub end_worker : Worker T → Dispatcher T → Option (Dispatcher T)
  end_worker (flushing batch) d =
      some (record d { worker = dead; done = d.done ++ batch ∷ []; lost = d.lost + length batch })
  end_worker _ d = none

  -- The end of `aclose`: the worker is cancelled, with the batch that it has in hand.
  abbrev pub cancel : Dispatcher T → Dispatcher T
  cancel d = record d {
    worker = stopped;
    done = with_batch d.done (in_hand d.worker);
    lost = d.lost + length (in_hand d.worker);
  }

  -- The part of `aclose` from `join` on is reached once, and with a worker that was spawned.
  abbrev pub is_closing : Dispatcher T → Bool
  is_closing d = d.is_closed && is_spawned d.worker

pub data Action (T : Type 0) : Type 0 where
  submits : T → Action T
  gets_first gets_more deadline flush_returns flush_raises flush_dies : Action T
  closes joined timed_out : Action T

module _ {T : Type 0} where
  unfoldable pub step : Action T → Dispatcher T → Option (Dispatcher T)
  unfolding submit
  step (submits event) d = elim (submit event d) [ none ↦ none | some (d', accepted) ↦ some d' ]
  step gets_first d = take_first d.worker d.queue d
  step gets_more d = take_more d.worker d.queue d
  step deadline d = stop_filling d.worker d
  step flush_returns d = end_flush true d.worker d
  step flush_raises d = end_flush false d.worker d
  step flush_dies d = end_worker d.worker d
  step closes d = some (record d { is_closed = true })
  step joined d = if is_closing d && d.unfinished == 0 then some (cancel d) else none
  step timed_out d =
      if is_closing d
      then some (cancel (record d { dropped = d.dropped + length d.queue }))
      else none

  -- A history of actions; `none` if one of them cannot happen.
  unfoldable pub run : List (Action T) → Dispatcher T → Option (Dispatcher T)
  run [] d = some d
  run (a ∷ later) d = elim (step a d) [ none ↦ none | some d' ↦ run later d' ]
