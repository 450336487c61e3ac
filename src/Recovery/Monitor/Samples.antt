-- ===== src/Recovery/Monitor/Samples.antt =====
-- A monitor that is started, stopped and started again, and the theorem at it.
use resilience_kit.Prelude.{
  ℕ, Bool, true, false, List, [], ◌∷◌, Option, none, some, ◌≡◌, refl, arith,
}
use resilience_kit.Recovery.Monitor.{Monitor, new, Action, starts, stops, ends, stop_returns, step}
use resilience_kit.Recovery.Monitor.Tracked.{idle, acted, live_task_tracked}

abbrev then_do : Option Monitor → Action → Option Monitor
then_do none a = none
then_do (some m) a = step a m

abbrev or_new : Option Monitor → Monitor
or_new none = new
or_new (some m) = m

abbrev run : List Action → Option Monitor → Option Monitor
run [] m = m
run (a ∷ actions) m = run actions (then_do m a)

-- What is seen of the first three tasks.
abbrev seen : Option Monitor → Option (Option ℕ × Bool × Bool × Bool × ℕ)
seen none = none
seen (some m) = some (m.task, m.is_done 0, m.is_done 1, m.is_done 2, m.next)

-- A start between the two parts of a stop: the second task is lost, and a third runs beside it.
lost_task :
    seen (
      run (starts 1 ∷ stops (some 1) ∷ ends 0 ∷ starts 1 ∷ stop_returns ∷ starts 1 ∷ []) (some new))
    ≡ some (some 2, true, false, false, 3)
unfolding step
lost_task = refl

abbrev started : Monitor
started = or_new (run (starts 1 ∷ starts 1 ∷ []) (some new))

live_task_tracked_example : (started.task ≡ some 0) × (started.loop_of 0 ≡ 1)
unfolding step
live_task_tracked_example =
    live_task_tracked 1 started 0
      (acted (starts 1) (acted (starts 1) idle (refl, refl) refl) (refl, refl) refl) (omega arith)
      refl
