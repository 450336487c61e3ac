-- ===== src/Decorators/Samples.antt =====
-- A service whose function always fails, and the theorems at it.
use resilience_kit.Prelude.{ℕ, ◌+◌, ◌≡◌, refl, [], ◌∷◌, none, some, max}
use resilience_kit.Prelude.Dict
use resilience_kit.Exceptions.{Exn, raised, known, transient_error, issubclass}
use resilience_kit.Retry.Backoff.{Jitter}
use resilience_kit.Retry.Loop.{World, notify, after_draw}
use resilience_kit.Retry.Verdict.{Scripted}
use resilience_kit.Retry.Keeps.{Keeps}
use resilience_kit.CircuitBreaker.{closed, «open», default_config}
use resilience_kit.CircuitBreaker.Memory
use resilience_kit.CircuitBreaker.Memory.{Breaker, service_unavailable}
use resilience_kit.Registry.{Defaults, ServiceConfig, Process, get_config, merged, no_overrides}
use resilience_kit.Decorators.{resilient, policy_of}
use resilience_kit.Decorators.Composition.{resilient_exhausted}

record Env : Type 0 where
  tries : ℕ
  clock : ℕ

abbrev defaults : Defaults
defaults = record {
  max_attempts = 2;
  wait_min = 1;
  wait_max = 10;
  exponential_base = record { num = 2; den = 1 };
  jitter = Jitter.none;
  fail_max = 5;
  reset_timeout = 30;
  success_threshold = 2;
}

abbrev blip : Exn
blip = record { cls = known transient_error; payload = 7 }

abbrev touch : (Env → Env) → Process Env → Process Env
touch f p = record p { env = f p.env }

abbrev failing : World (Process Env) ℕ
failing = record {
  func = λ p. (touch (λ e. record e { tries = e.tries + 1 }) p, raised blip);
  on_error = none;
  sleep = λ d p. (touch (λ e. record e { clock = e.clock + d }) p, none);
  uniform = λ p lo hi. max lo hi;
  drawn = λ p. p;
  incr = λ m p. p;
}

abbrev pay_config : ServiceConfig
pay_config = merged defaults no_overrides (known transient_error ∷ [])

abbrev closed_breaker : Breaker
closed_breaker = record {
  config = default_config 1;
  state = closed;
  failure_count = 0;
  success_count = 0;
  opened_at = none;
  metrics = [];
}

abbrev open_breaker : Breaker
open_breaker = record closed_breaker { state = «open»; opened_at = some 10 }

abbrev with_breaker : Breaker → Process Env
with_breaker b = record {
  registry = record { overrides = []; breakers = ("pay", 0) ∷ [] };
  heap = λ j. b;
  next = 1;
  env = record { tries = 0; clock = 20 };
}

abbrev clock : Env → ℕ
clock e = e.clock

failing-Scripted : Scripted (policy_of pay_config.retry) failing
unfolding notify after_draw merged
failing-Scripted = record {
  calls = λ p. p.env.tries;
  outs = λ n. raised blip;
  func_out = λ p. refl;
  func_calls = λ p. refl;
  incr_calls = λ m p. refl;
  drawn_calls = λ p. refl;
  notify_calls = λ e n p. refl;
  notify_quiet = λ e n p. refl;
  sleep_calls = λ d p. refl;
  sleep_quiet = λ d p. refl;
}

failing-Keeps : Keeps failing (λ p. p.heap 0)
failing-Keeps = record {
  no_callback = refl;
  func = λ p. refl;
  sleep = λ d p. refl;
  drawn = λ p. refl;
  incr = λ m p. refl;
}

-- Two attempts, and one failure on the breaker.
resilient_exhausted_example :
    let (q, out) = resilient clock defaults "pay" failing (with_breaker closed_breaker) in
    (out ≡ raised blip)
    × (q.env.tries ≡ 0 + 2)
    × (q.heap 0 ≡ Memory.record_failure q.env.clock closed_breaker)
unfolding failing-Scripted get_config Dict.get issubclass
resilient_exhausted_example =
    resilient_exhausted clock defaults "pay" failing pay_config failing-Scripted (λ e. e.tries) 1
      (with_breaker closed_breaker) 0 blip refl refl refl failing-Keeps (λ q. refl) refl
      (λ n lt. refl) refl refl
