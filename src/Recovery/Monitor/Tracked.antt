-- ===== src/Recovery/Monitor/Tracked.antt =====
-- No task runs that the monitor has lost.
use resilience_kit.Prelude.{
  ℕ, ◌<◌, true, false, none, some, Option-cases, Bool-cases, subst, ◌≡◌, sym, ◌∙◌, inl, inr, arith,
}
use resilience_kit.Recovery.Monitor.{
  Monitor, new, spawn, start, stop, finish, Action, starts, stops, ends, stop_returns,
  stop_times_out, step,
}

-- Every task that has been spawned is done, or is the one that the monitor tracks. It is in the
-- loop, and what `stop` awaits is tracked.
pub record IsTracked (loop : ℕ) (m : Monitor) : Type 0 where
  pub live : (id : ℕ) → id < m.next → m.is_done id ≡ false → m.task ≡ some id
  pub in_loop : (id : ℕ) → m.task ≡ some id → m.loop_of id ≡ loop
  pub awaits : (id : ℕ) → m.awaited ≡ some id → m.task ≡ some id

-- An action of one loop, where no start comes between the two parts of a stop.
abbrev pub IsApart : ℕ → Action → Monitor → Type 0
IsApart loop (starts at) m = (at ≡ loop) × (m.awaited ≡ none)
IsApart loop (stops current) m = current ≡ some loop
IsApart loop _ m = Unit

-- Each task that has been spawned is done.
abbrev AllDone : Monitor → Type 0
AllDone m = (id : ℕ) → id < m.next → m.is_done id ≡ true

spawn-IsTracked :
    (loop : ℕ) (m : Monitor) → m.awaited ≡ none → AllDone m → IsTracked loop (spawn loop m)
unfolding spawn
spawn-IsTracked loop m free dead = record {
  live = λ id lt k. ground (arith, lt, k, dead id);
  in_loop = λ id k. ground (arith, k);
  awaits = λ id k. ground (arith, free, k);
}

-- A tracked task that is done, or none, leaves no other.
all_done :
    (loop : ℕ) (m : Monitor)
    → IsTracked loop m
    → ((id : ℕ) → m.task ≡ some id → m.is_done id ≡ true)
    → AllDone m
all_done loop m h over id lt = elim (Bool-cases (m.is_done id)) [
  | inl k ↦ k
  | inr k ↦ over id (h.live id lt k)
]

start-IsTracked :
    (loop : ℕ) (m : Monitor) → m.awaited ≡ none → IsTracked loop m → IsTracked loop (start loop m)
unfolding start
start-IsTracked loop m free h = elim (Option-cases m.task) [
  | inl k ↦
      let same : start loop m ≡ spawn loop m = ground (arith, k) in
      subst (IsTracked loop) (sym same)
        (spawn-IsTracked loop m free (all_done loop m h (λ id j. ground (arith, j, k))))
  | inr (task, k) ↦ elim (Bool-cases (m.is_done task)) [
    | inl d ↦
        let same : start loop m ≡ spawn loop m = ground (arith, k, d) in
        subst (IsTracked loop) (sym same)
          (spawn-IsTracked loop m free (all_done loop m h (λ id j. ground (arith, j, k, d))))
    | inr d ↦
        let same : start loop m ≡ m = ground (arith, k, d, h.in_loop task k) in
        subst (IsTracked loop) (sym same) h
  ]
]

stop-IsTracked : (loop : ℕ) (m : Monitor) → IsTracked loop m → IsTracked loop (stop (some loop) m)
unfolding stop
stop-IsTracked loop m h = elim (Option-cases m.task) [
  | inl k ↦
      let same : stop (some loop) m ≡ m = ground (arith, k) in subst (IsTracked loop) (sym same) h
  | inr (task, k) ↦
      let same : stop (some loop) m ≡ record m { is_stopping = true; awaited = some task } =
        ground (arith, k, h.in_loop task k) in
      subst (IsTracked loop) (sym same)
        (record { live = h.live; in_loop = h.in_loop; awaits = λ id j. k ∙ j })
]

finish-IsTracked : (loop task : ℕ) (m : Monitor) → IsTracked loop m → IsTracked loop (finish task m)
unfolding finish
finish-IsTracked loop task m h = record {
  live = λ id lt k. ground (arith, k, h.live id lt);
  in_loop = h.in_loop;
  awaits = h.awaits;
}

finish_done : (task : ℕ) (m : Monitor) → (finish task m).is_done task ≡ true
unfolding finish
finish_done task m = ground arith

-- The second part of a stop, once the awaited task is done.
release-IsTracked :
    (loop task : ℕ) (m : Monitor)
    → m.awaited ≡ some task
    → m.is_done task ≡ true
    → IsTracked loop m
    → IsTracked loop (record m { task = none; awaited = none })
release-IsTracked loop task m k d h =
    let tracked = h.awaits task k in
    let dead = all_done loop m h (λ id j. ground (arith, j, tracked, d)) in
    record {
      live = λ id lt j. ground (arith, j, dead id lt);
      in_loop = λ id j. ground (arith, j);
      awaits = λ id j. ground (arith, j);
    }

step-IsTracked :
    (loop : ℕ) (a : Action) (m m' : Monitor)
    → IsApart loop a m
    → IsTracked loop m
    → step a m ≡ some m'
    → IsTracked loop m'
unfolding step
step-IsTracked loop (starts at) m m' apart h e =
    let got : start loop m ≡ m' = ground (arith, e, apart.0) in
    subst (IsTracked loop) got (start-IsTracked loop m apart.1 h)
step-IsTracked loop (stops current) m m' apart h e = elim (Option-cases m.awaited) [
  | inl k ↦
      let got : stop (some loop) m ≡ m' = ground (arith, e, apart, k) in
      subst (IsTracked loop) got (stop-IsTracked loop m h)
  | inr (task, k) ↦ ground (arith, e, k)
]
step-IsTracked loop (ends task) m m' apart h e = elim (Bool-cases m.is_stopping) [
  | inl k ↦
      let got : finish task m ≡ m' = ground (arith, e, k) in
      subst (IsTracked loop) got (finish-IsTracked loop task m h)
  | inr k ↦ ground (arith, e, k)
]
step-IsTracked loop stop_returns m m' apart h e = elim (Option-cases m.awaited) [
  | inl k ↦ ground (arith, e, k)
  | inr (task, k) ↦ elim (Bool-cases (m.is_done task)) [
    | inl d ↦
        let got : record m { task = none; awaited = none } ≡ m' = ground (arith, e, k, d) in
        subst (IsTracked loop) got (release-IsTracked loop task m k d h)
    | inr d ↦ ground (arith, e, k, d)
  ]
]
step-IsTracked loop stop_times_out m m' apart h e = elim (Option-cases m.awaited) [
  | inl k ↦ ground (arith, e, k)
  | inr (task, k) ↦
      let got : record (finish task m) { task = none; awaited = none } ≡ m' =
        ground (arith, e, k) in
      subst (IsTracked loop) got (
        release-IsTracked loop task (finish task m) k (finish_done task m)
          (finish-IsTracked loop task m h))
]

-- What the actions of one loop lead to, where no start comes between the two parts of a stop.
pub data IsReached (loop : ℕ) : Monitor → Type 0 where
  idle : IsReached loop new
  acted :
      (a : Action) {m m' : Monitor}
      → IsReached loop m
      → IsApart loop a m
      → step a m ≡ some m'
      → IsReached loop m'

IsReached-IsTracked : (loop : ℕ) (m : Monitor) → IsReached loop m → IsTracked loop m
IsReached-IsTracked loop m idle = record {
  live = λ id lt k. absurd (omega (arith, lt));
  in_loop = λ id k. ground (arith, k);
  awaits = λ id k. ground (arith, k);
}
IsReached-IsTracked loop m (acted a {m = before} r apart e) =
    step-IsTracked loop a before m apart (IsReached-IsTracked loop before r) e

-- Over the starts and stops of one loop, none of which starts between the two parts of a stop, a task
-- that has been spawned and is not done is the one that the monitor tracks: there is never a
-- second one, and none is left once a stop has ended.
pub live_task_tracked :
    (loop : ℕ) (m : Monitor) (id : ℕ)
    → IsReached loop m
    → id < m.next
    → m.is_done id ≡ false
    → (m.task ≡ some id) × (m.loop_of id ≡ loop)
live_task_tracked loop m id r lt k =
    let h = IsReached-IsTracked loop m r in (h.live id lt k, h.in_loop id (h.live id lt k))
