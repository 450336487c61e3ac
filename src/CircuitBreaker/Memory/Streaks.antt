-- ===== src/CircuitBreaker/Memory/Streaks.antt =====
-- Streaks of failures and of successes with nothing in between.
use resilience_kit.Prelude.{
  ℕ, zero, suc, ◌+◌, ◌<◌, ◌≡◌, List, [], ◌∷◌, ◌++◌, none, some, arith, map, length, replicate,
}
use resilience_kit.CircuitBreaker.{closed, «open», half_open}
use resilience_kit.CircuitBreaker.Memory.{Breaker, fail, succeed, apply, run}

-- A closed breaker stays closed while the number of failures in a row is below `fail_max`; the one
-- that reaches it opens the breaker, at the time of that failure.
pub run-fail_trips :
    (times : List ℕ) (last : ℕ) (b : Breaker)
    → b.state ≡ closed
    → b.failure_count + length times + 1 ≡ b.config.fail_max
    → ((run b (map fail times)).state ≡ closed)
      × ((run b (map fail times ++ fail last ∷ [])).state ≡ «open»)
      × ((run b (map fail times ++ fail last ∷ [])).opened_at ≡ some last)
unfolding run apply
run-fail_trips [] last b s e = ground arith
run-fail_trips (t ∷ ts) last b s e =
    run-fail_trips ts last (apply (fail t) b) (ground arith) (ground arith)

-- A half open breaker closes, with its counts at 0, at the success that brings their number to
-- `success_threshold`, and is half open until then.
pub run-succeed_closes :
    (n : ℕ) (b : Breaker)
    → b.state ≡ half_open
    → b.success_count + n + 1 ≡ b.config.success_threshold
    → ((run b (replicate n succeed)).state ≡ half_open)
      × ((run b (replicate (suc n) succeed)).state ≡ closed)
      × ((run b (replicate (suc n) succeed)).failure_count ≡ 0)
      × ((run b (replicate (suc n) succeed)).opened_at ≡ none)
unfolding run apply
run-succeed_closes zero b s e = ground arith
run-succeed_closes (suc n) b s e =
    run-succeed_closes n (apply succeed b) (ground arith) (ground arith)

-- A failure before that reopens it at once, and a success of a closed breaker forgets its failures.
run-half_open_reopens :
    (n now : ℕ) (b : Breaker)
    → b.state ≡ half_open
    → b.success_count + n < b.config.success_threshold
    → ((run b (replicate n succeed ++ fail now ∷ [])).state ≡ «open»)
      × ((run b (replicate n succeed ++ fail now ∷ [])).opened_at ≡ some now)
unfolding run apply
run-half_open_reopens zero now b s lt = ground arith
run-half_open_reopens (suc n) now b s lt =
    run-half_open_reopens n now (apply succeed b) (ground arith) (ground arith)
