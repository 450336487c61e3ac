-- ===== src/CircuitBreaker/Memory/Samples.antt =====
-- A breaker that opens after two failures, and the theorems at it.
use resilience_kit.Prelude.{ℕ, ◌≡◌, refl, [], ◌∷◌, ◌++◌, none, some, arith, map}
use resilience_kit.Exceptions.{raised, known, value_error, transient_error, issubclass}
use resilience_kit.CircuitBreaker.{
  closed, «open», half_open, BreakerConfig, default_excluded_exceptions,
}
use resilience_kit.CircuitBreaker.Memory.{Breaker, Awaited, poll, fail, succeed, run, call}
use resilience_kit.CircuitBreaker.Memory.Invariant.{IsValid, run-IsValid}
use resilience_kit.CircuitBreaker.Memory.Streaks.{run-fail_trips}

abbrev config : BreakerConfig
config = record {
  fail_max = 2;
  reset_timeout = 30;
  success_threshold = 2;
  excluded_exceptions = default_excluded_exceptions;
}

abbrev fresh : Breaker
fresh = record {
  config = config;
  state = closed;
  failure_count = 0;
  success_count = 0;
  opened_at = none;
  metrics = [];
}

abbrev opened : Breaker
opened = record fresh { state = «open»; opened_at = some 100 }

abbrev half : Breaker
half = record opened { state = half_open }

abbrev blip : Breaker → Awaited ℕ
blip b = record {
  outcome = raised (record { cls = known transient_error; payload = 1 });
  time = 140;
  breaker = b;
}

abbrev bad_value : Breaker → Awaited ℕ
bad_value b = record {
  outcome = raised (record { cls = known value_error; payload = 2 });
  time = 140;
  breaker = b;
}

fresh-IsValid : IsValid fresh
fresh-IsValid = ground arith

half-IsValid : IsValid half
half-IsValid = ground arith

run-IsValid_example : IsValid (run half (succeed ∷ fail 140 ∷ poll 200 ∷ []))
run-IsValid_example = run-IsValid (succeed ∷ fail 140 ∷ poll 200 ∷ []) half half-IsValid

run-fail_trips_example :
    ((run fresh (map fail (5 ∷ []))).state ≡ closed)
    × ((run fresh (map fail (5 ∷ []) ++ fail 6 ∷ [])).state ≡ «open»)
    × ((run fresh (map fail (5 ∷ []) ++ fail 6 ∷ [])).opened_at ≡ some 6)
run-fail_trips_example = run-fail_trips (5 ∷ []) 6 fresh refl (omega arith)

-- A failure is counted, and an excluded class is not.
counted : (call 140 blip fresh).0.failure_count ≡ 1
unfolding call issubclass
counted = refl

not_counted : (call 140 bad_value fresh).0 ≡ fresh
unfolding call issubclass
not_counted = refl
