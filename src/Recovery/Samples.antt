-- ===== src/Recovery/Samples.antt =====
-- A roster of two backends, one of which recovers, and the theorem at it.
use resilience_kit.Prelude.{
  ℕ, true, List, [], ◌∷◌, ◌++◌, none, some, ◌==◌, if◌then◌else◌, ◌≡◌, refl, arith,
}
use resilience_kit.Exceptions.{returned, raised, known, runtime_error, issubclass}
use resilience_kit.Recovery.{Recovery, Backends, attempt_recover_all}
use resilience_kit.Recovery.Hooks.{probed, recoveries, warmed, IsTame, attempt_recover_all-warmed}

-- The backends and the hooks that were called, in order.
abbrev Log : Type 0
Log = List ℕ

abbrev pool : Backends Log
pool = record {
  try_recover = λ i r. (
    record r { env = r.env ++ i ∷ [] },
    if i == 1 then returned true else raised (record { cls = known runtime_error; payload = 0 }),
  );
  hook = λ i r. (
    record r { env = r.env ++ i ∷ [] },
    if i == 7 then some (record { cls = known runtime_error; payload = 0 }) else none,
  );
}

abbrev roster : Recovery Log
roster = record { registered = 0 ∷ 1 ∷ []; warm_hooks = 7 ∷ 8 ∷ []; env = [] }

pool-IsTame : IsTame pool
unfolding issubclass
pool-IsTame = record {
  probe_exceptions = λ i r e h. ground (arith, h);
  hook_exceptions = λ i r e h. ground (arith, h);
  probe_keeps = λ i r. refl;
  hook_keeps = λ i r. refl;
}

roster_ticks :
    attempt_recover_all pool 3 roster
    ≡ some (record roster { env = 0 ∷ 1 ∷ 7 ∷ 8 ∷ [] }, returned 1)
unfolding attempt_recover_all issubclass
roster_ticks = refl

attempt_recover_all-warmed_example :
    let n = recoveries pool roster.registered roster in
    let r' = probed pool roster.registered roster in
    attempt_recover_all pool 3 roster
    ≡ some ((if n == 0 then r' else warmed pool roster.warm_hooks r'), returned n)
attempt_recover_all-warmed_example =
    attempt_recover_all-warmed pool 3 roster pool-IsTame (omega arith)
