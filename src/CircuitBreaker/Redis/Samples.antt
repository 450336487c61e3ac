-- ===== src/CircuitBreaker/Redis/Samples.antt =====
-- A server that keeps the hash of one key, a server that is down, and the theorems at them.
use resilience_kit.Prelude.{
  ℕ, ◌+◌, ltb, arith, if◌then◌else◌, true, false, List, [], ◌∷◌, ◌≡◌, refl, ◌⊎◌, Option, none, some,
}
use resilience_kit.Exceptions.{Exn, Outcome, returned, raised, known, issubclass, transient_error}
use resilience_kit.Redis.{redis_error}
use resilience_kit.CircuitBreaker.{BreakerConfig, default_excluded_exceptions}
use resilience_kit.CircuitBreaker.Lua.{BreakerHash, HashStore, script}
use resilience_kit.CircuitBreaker.Memory
use resilience_kit.CircuitBreaker.Memory.{service_unavailable}
use resilience_kit.CircuitBreaker.Redis
use resilience_kit.CircuitBreaker.Redis.{
  Client, State, Awaited, eval, eval_loaded, evalsha, load, call,
}
use resilience_kit.CircuitBreaker.Redis.Sequence.{
  OneCall, apart, outcomes, outcomes_in_memory, IsPrompt,
}
use resilience_kit.CircuitBreaker.Redis.Agreement.{outcomes_alike}
use resilience_kit.CircuitBreaker.Redis.Agreement.Served.{Serves}
use resilience_kit.CircuitBreaker.Redis.Soundness.{IsSound}
use resilience_kit.CircuitBreaker.Redis.FailOpen.{FailsAsRedis, call-fails_open}

abbrev config : BreakerConfig
config = record {
  fail_max = 2;
  reset_timeout = 30;
  success_threshold = 1;
  excluded_exceptions = default_excluded_exceptions;
}

-- The hash, with the time at which it expires.
abbrev Key : Type 0
Key = Option (BreakerHash × ℕ)

abbrev read_key : ℕ → Key → Option BreakerHash
read_key t none = none
read_key t (some (h, expires)) = if ltb t expires then some h else none

abbrev one_key : HashStore Key
one_key = record {
  hmget = read_key;
  hmset = λ h ttl now (s : Key). some (h, now + ttl);
  del = λ (s : Key). none;
  hmget-hmset = λ h ttl now later s. refl;
  hmget-del = λ later s. refl;
}

abbrev up : Client Key
up = record {
  script_load = λ s. (s, returned 7);
  evalsha = λ sha action c now s.
      ((script one_key 1 c now action s).0, returned (script one_key 1 c now action s).1);
  ping = λ s. (s, returned tt);
}

up-Serves : Serves up one_key 1
up-Serves = record { loads = λ s. (7, refl); runs = λ sha action c now s. refl }

abbrev gone : Exn
gone = record { cls = redis_error; payload = 0 }

abbrev down : Client Key
down = record {
  script_load = λ s. (s, raised gone);
  evalsha = λ sha action c now s. (s, raised gone);
  ping = λ s. (s, raised gone);
}

abbrev blip : Outcome ℕ
blip = raised (record { cls = known transient_error; payload = 1 })

abbrev fresh : State Key
fresh = record { breaker = Redis.new config; server = none }

abbrev four_calls : List (OneCall ℕ)
four_calls =
    record { starts = 1; ends = 2; outcome = blip }
    ∷ record { starts = 3; ends = 4; outcome = blip }
    ∷ record { starts = 5; ends = 6; outcome = returned 8 }
    ∷ record { starts = 34; ends = 35; outcome = returned 9 }
    ∷ []

four_outcomes :
    outcomes up fresh four_calls ≡ blip ∷ blip ∷ raised service_unavailable ∷ returned 9 ∷ []
unfolding outcomes call eval eval_loaded evalsha load Redis.new script issubclass
four_outcomes = refl

four_calls-IsPrompt : IsPrompt 1 300 (Memory.new config) four_calls
unfolding IsPrompt Memory.new Memory.call issubclass
four_calls-IsPrompt = ground arith

outcomes_alike_example :
    outcomes up fresh four_calls ≡ outcomes_in_memory (Memory.new config) four_calls
outcomes_alike_example =
    outcomes_alike up one_key 1 up-Serves config none 300 four_calls (λ t. refl) four_calls-IsPrompt

-- Two failures, with the key expired between them: the memory breaker is open then, and the Redis
-- breaker is not.
abbrev far_apart : List (OneCall ℕ)
far_apart =
    record { starts = 1; ends = 1; outcome = blip }
    ∷ record { starts = 400; ends = 400; outcome = blip }
    ∷ record { starts = 401; ends = 401; outcome = returned 9 }
    ∷ []

forgotten : outcomes up fresh far_apart ≡ blip ∷ blip ∷ returned 9 ∷ []
unfolding outcomes call eval eval_loaded evalsha load Redis.new script issubclass
forgotten = refl

remembered :
    outcomes_in_memory (Memory.new config) far_apart ≡ blip ∷ blip ∷ raised service_unavailable ∷ []
unfolding outcomes_in_memory Memory.new Memory.call issubclass
remembered = refl

fresh-IsSound : IsSound fresh.breaker.health
unfolding Redis.new
fresh-IsSound = record { since = refl; logged = refl }

down-FailsAsRedis : FailsAsRedis down
unfolding issubclass native.Mathlib.Decide.ℕ_discrete
down-FailsAsRedis = record { loads = λ s. refl; runs = λ sha action c now s. refl }

call-fails_open_example :
    ((call down 5 (apart blip 6) fresh).1 ≡ raised service_unavailable)
    ⊎ ((s : State Key) × ((call down 5 (apart blip 6) fresh).1 ≡ (apart blip 6 s).outcome))
call-fails_open_example = call-fails_open down 5 (apart blip 6) fresh down-FailsAsRedis

abbrev degraded : State Key
degraded = record fresh {
  breaker = record (fresh.breaker) {
    health = record { healthy = false; degraded_since = some 3; log_degraded_once = true };
  };
}
