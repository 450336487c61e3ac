-- ===== src/Retry/Samples.antt =====
-- A world that plays a script of outcomes, the theorems of the loop in it, and tests of the delays.
use resilience_kit.Prelude.{ℕ, zero, suc, ◌+◌, ◌≤◌, ◌<◌, ◌≡◌, refl, true, [], ◌∷◌, none, arith, max}
use resilience_kit.Exceptions.{
  Exn, Outcome, raised, known, exception, transient_error, service_unavailable_error, issubclass,
}
use resilience_kit.Retry.Backoff.{Jitter, exponential_backoff, next_delay}
use resilience_kit.Retry.Loop.{Policy, World, notify, after_draw, async_wrapper, filter_retry_on}
use resilience_kit.Retry.Verdict.{
  Scripted, is_retryable, async_wrapper-first, async_wrapper-exhausted,
}
use resilience_kit.Retry.Delays.{InRange, next_delay-le, Clocked}

record Run : Type 0 where
  calls : ℕ
  slept : ℕ

abbrev blip : Exn
blip = record { cls = known transient_error; payload = 7 }

abbrev open_breaker : Exn
open_breaker = record { cls = known service_unavailable_error; payload = 0 }

-- Two blips, then the breaker's error, whatever is called after.
abbrev script : ℕ → Outcome ℕ
script zero = raised blip
script (suc zero) = raised blip
script (suc (suc n)) = raised open_breaker

abbrev world : World Run ℕ
world = record {
  func = λ s. (record s { calls = s.calls + 1 }, script s.calls);
  on_error = none;
  sleep = λ d s. (record s { slept = s.slept + d }, none);
  uniform = λ s lo hi. max lo hi;
  drawn = λ s. s;
  incr = λ m s. s;
}

abbrev policy : Policy
policy = record {
  max_attempts = 3;
  base_delay = 10;
  exponential_base = record { num = 2; den = 1 };
  max_delay = 25;
  exceptions = known exception ∷ [];
  jitter = Jitter.none;
  raise_on_failure = true;
}

abbrev start : Run
start = record { calls = 0; slept = 0 }

scripted : (p : Policy) → p.jitter ≡ Jitter.none → Scripted p world
unfolding notify after_draw
scripted p e = record {
  calls = λ s. s.calls;
  outs = script;
  func_out = λ s. refl;
  func_calls = λ s. refl;
  incr_calls = λ m s. refl;
  drawn_calls = λ s. ground arith;
  notify_calls = λ e n s. refl;
  notify_quiet = λ e n s. refl;
  sleep_calls = λ d s. refl;
  sleep_quiet = λ d s. refl;
}

two_blips : (n : ℕ) → n < 2 → is_retryable policy (script (0 + n)) ≡ true
unfolding issubclass
two_blips zero h = refl
two_blips (suc zero) h = refl
two_blips (suc (suc n)) h = absurd (omega arith)

-- The third call meets the open breaker, and its error comes out at once.
async_wrapper-first_example :
    ((async_wrapper policy world start).1 ≡ raised open_breaker)
    × ((async_wrapper policy world start).0.calls ≡ 0 + 2 + 1)
unfolding scripted issubclass
async_wrapper-first_example =
    async_wrapper-first policy world (scripted policy refl) 2 start (raised open_breaker)
      (omega arith) two_blips refl refl

abbrev two_tries : Policy
two_tries = record policy { max_attempts = 2 }

async_wrapper-exhausted_example :
    ((async_wrapper two_tries world start).1 ≡ raised blip)
    × ((async_wrapper two_tries world start).0.calls ≡ 0 + 2)
unfolding scripted
async_wrapper-exhausted_example =
    async_wrapper-exhausted two_tries world (scripted two_tries refl) 1 start blip refl two_blips
      refl

max-InRange : InRange (λ lo hi. max lo hi)
max-InRange = record { above = λ lo hi h. omega arith; below = λ lo hi h. omega arith }

clocked : Clocked policy world
unfolding notify after_draw
clocked = record {
  slept = λ s. s.slept;
  func_slept = λ s. refl;
  incr_slept = λ m s. refl;
  drawn_slept = λ s. refl;
  notify_slept = λ e n s. refl;
  sleep_slept = λ d s. omega arith;
  uniform_range = λ s. max-InRange;
}

next_delay-le_example :
    next_delay Jitter.full 3 10 10 policy.exponential_base 25 (λ lo hi. max lo hi) ≤ 25
next_delay-le_example =
    next_delay-le Jitter.full 3 10 10 policy.exponential_base 25 (λ lo hi. max lo hi) max-InRange

-- 10, 20 and then the cap
doubling :
    (exponential_backoff 0 10 policy.exponential_base 25 ≡ 10)
    × (exponential_backoff 1 10 policy.exponential_base 25 ≡ 20)
    × (exponential_backoff 2 10 policy.exponential_base 25 ≡ 25)
unfolding exponential_backoff
doubling = (refl, refl, refl)

slept_in_script : (async_wrapper policy world start).0.slept ≡ 30
unfolding async_wrapper next_delay issubclass filter_retry_on
slept_in_script = refl
