-- ===== src/Dispatch/FireAndForget/Samples.antt =====
-- A dispatcher with room for two events, and the theorems at histories of it.
use resilience_kit.Prelude.{ℕ, ◌+◌, ◌≡◌, refl, true, false, List, [], ◌∷◌, ◌++◌, some, arith}
use resilience_kit.Dispatch.FireAndForget.{
  OverflowPolicy, drop_newest, drop_oldest, absent, waiting, stopped, filling, Dispatcher, Action,
  submits, gets_first, gets_more, deadline, flush_returns, flush_dies, closes, timed_out, step, run,
}
use resilience_kit.Dispatch.FireAndForget.Invariant.{IsSound, Accounts, length_all}
use resilience_kit.Dispatch.FireAndForget.Metrics.{calls, cut_off, run-counted}
use resilience_kit.Dispatch.FireAndForget.Order.{contents, accepted, run-contents}

abbrev start : OverflowPolicy → Dispatcher ℕ
start policy = record {
  queue_size = 2;
  batch_max = 2;
  overflow = policy;
  queue = [];
  unfinished = 0;
  worker = absent;
  is_closed = false;
  done = [];
  lost = 0;
  submitted = 0;
  dropped = 0;
  flushed = 0;
  flush_failed = 0;
}

start-IsSound : (p : OverflowPolicy) → IsSound (start p)
start-IsSound p = ground arith

start-Accounts : (p : OverflowPolicy) → Accounts (start p)
unfolding length_all
start-Accounts p = ground arith

-- Three events find a queue of two; the first batch is flushed and the second is in hand.
abbrev busy : List (Action ℕ)
busy =
    submits 1
    ∷ submits 2
    ∷ submits 3
    ∷ gets_first
    ∷ gets_more
    ∷ deadline
    ∷ flush_returns
    ∷ submits 4
    ∷ gets_first
    ∷ []

abbrev after_busy : Dispatcher ℕ
after_busy = record (start drop_newest) {
  unfinished = 1;
  worker = filling (4 ∷ []);
  done = (1 ∷ 2 ∷ []) ∷ [];
  submitted = 3;
  dropped = 1;
  flushed = 2;
}

busy_runs : run busy (start drop_newest) ≡ some after_busy
unfolding run step
busy_runs = refl

busy_oldest :
    run (submits 1 ∷ submits 2 ∷ submits 3 ∷ []) (start drop_oldest)
    ≡ some (record (start drop_oldest) {
      queue = 2 ∷ 3 ∷ [];
      unfinished = 2;
      worker = waiting;
      submitted = 2;
      dropped = 1;
    })
unfolding run step
busy_oldest = refl

-- The flush of the first event raises what is no `Exception`; the next worker has the second in hand,
-- and the third is queued, when `aclose` runs into its timeout.
abbrev dying : List (Action ℕ)
dying =
    submits 1
    ∷ gets_first
    ∷ deadline
    ∷ submits 2
    ∷ flush_dies
    ∷ submits 3
    ∷ gets_first
    ∷ closes
    ∷ timed_out
    ∷ []

abbrev after_dying : Dispatcher ℕ
after_dying = record (start drop_newest) {
  queue = 3 ∷ [];
  unfinished = 3;
  worker = stopped;
  is_closed = true;
  done = (1 ∷ []) ∷ (2 ∷ []) ∷ [];
  lost = 2;
  submitted = 3;
  dropped = 1;
}

dying_runs : run dying (start drop_newest) ≡ some after_dying
unfolding run step
dying_runs = refl

run-counted_example :
    (after_dying.submitted + after_dying.dropped
      ≡ 0 + 0 + calls dying + cut_off dying (start drop_newest))
    × (after_dying.submitted
        ≡ after_dying.flushed + after_dying.flush_failed + after_dying.lost + 0 + 1)
run-counted_example =
    run-counted dying (start drop_newest) after_dying dying_runs (start-IsSound drop_newest)
      (start-Accounts drop_newest)

run-contents_example :
    contents after_busy ≡ contents (start drop_newest) ++ accepted busy (start drop_newest)
run-contents_example =
    run-contents busy (start drop_newest) after_busy refl (start-IsSound drop_newest) busy_runs
