-- ===== src/Retry/Delays.antt =====
-- How long the loop sleeps, for every strategy.
use resilience_kit.Prelude.{
  ℕ, zero, suc, ◌+◌, ◌-◌, ◌*◌, ◌/◌, ◌^◌, ◌≤◌, ◌<◌, inl, inr, ◌≡◌, Option, none, some, arith, min,
  max,
}
use resilience_kit.Exceptions.{Exn, Outcome, Outcome-cases}
use resilience_kit.Retry.Backoff.{Ratio, Jitter, next_delay}
use resilience_kit.Retry.Loop.{
  Policy, World, RetryMetric, exhausted, attempt, success, after_draw, notify, back_off, on_failure,
  round, rounds, async_wrapper,
}

-- The two bounds that `random.uniform(lo, hi)` documents for lo ≤ hi.
pub record InRange (uniform : ℕ → ℕ → ℕ) : Type 0 where
  pub above : (lo hi : ℕ) → lo ≤ hi → lo ≤ uniform lo hi
  pub below : (lo hi : ℕ) → lo ≤ hi → uniform lo hi ≤ hi

-- No strategy passes `max_delay`.
pub next_delay-le :
    (j : Jitter) (k prev base : ℕ) (b : Ratio) (limit : ℕ) (uniform : ℕ → ℕ → ℕ)
    → InRange uniform
    → next_delay j k prev base b limit uniform ≤ limit
unfolding next_delay
next_delay-le Jitter.none k prev base b limit uniform h = omega arith
next_delay-le Jitter.full k prev base b limit uniform h =
    ground (arith, h.below 0 (min limit (base * b.num ^ k / b.den ^ k)))
next_delay-le Jitter.decorrelated k prev base b limit uniform h = omega arith

-- A decorrelated delay lies between the base and three times the delay before it, both capped.
decorrelated_range :
    (k prev base : ℕ) (b : Ratio) (limit : ℕ) (uniform : ℕ → ℕ → ℕ)
    → InRange uniform
    → (min base limit ≤ next_delay Jitter.decorrelated k prev base b limit uniform)
      × (next_delay Jitter.decorrelated k prev base b limit uniform ≤ max base (prev * 3))
unfolding next_delay
decorrelated_range k prev base b limit uniform h =
    ground (arith, h.above base (max base (prev * 3)), h.below base (max base (prev * 3)))

-- A clock that only sleeping moves.
pub record Clocked {S A : Type 0} (p : Policy) (w : World S A) : Type 0 where
  pub slept : S → ℕ
  pub func_slept : (s : S) → slept (w.func s).0 ≡ slept s
  pub incr_slept : (m : RetryMetric) (s : S) → slept (w.incr m s) ≡ slept s
  pub drawn_slept : (s : S) → slept (after_draw p w p.jitter s) ≡ slept s
  pub notify_slept : (e : Exn) (n : ℕ) (s : S) → slept (notify p w e n s).0 ≡ slept s
  pub sleep_slept : (d : ℕ) (s : S) → slept (w.sleep d s).0 ≤ slept s + d
  pub uniform_range : (s : S) → InRange (w.uniform s)

room : (n m : ℕ) → 0 < n → m + (n - 1) * m ≤ (suc n - 1) * m
room zero m h = elim h [ ]
room (suc n) m h =
    let a : suc n - 1 ≡ n = omega arith in
    let b : suc (suc n) - 1 ≡ suc n = omega arith in rw (a, b) (omega arith)

module _ {S A : Type 0} (p : Policy) (w : World S A) (c : Clocked p w) where
  open c use {slept, func_slept, incr_slept, drawn_slept, notify_slept, sleep_slept, uniform_range}

  -- A continuation that sleeps `budget` at most.
  abbrev Within : ℕ → (ℕ → Option Exn → S → S × Outcome (Option A)) → Type 0
  Within budget rest =
      (d : ℕ) (last : Option Exn) (s : S) → slept (rest d last s).0 ≤ slept s + budget

  back_off-slept :
      (rest : ℕ → Option Exn → S → S × Outcome (Option A)) (budget k d : ℕ) (e : Exn) (s : S)
      → Within budget rest
      → slept (back_off p w rest k d e s).0 ≤ slept s + (p.max_delay + budget)
  unfolding back_off
  back_off-slept rest budget k d e s within =
      let delay =
        next_delay p.jitter k d p.base_delay p.exponential_base p.max_delay (w.uniform s) in
      let s' = after_draw p w p.jitter s in
      let s'' = w.incr (attempt (k + 1)) s' in
      ground (
        arith,
        next_delay-le p.jitter k d p.base_delay p.exponential_base p.max_delay (w.uniform s)
            (uniform_range s),
        drawn_slept s,
        incr_slept (attempt (k + 1)) s',
        sleep_slept delay s'',
        within delay (some e) (w.sleep delay s'').0,
      )

  on_failure-slept :
      (rest : ℕ → Option Exn → S → S × Outcome (Option A)) (budget total k d : ℕ) (e : Exn) (s : S)
      → Within budget rest
      → k < p.max_attempts
      → (k + 1 < p.max_attempts → p.max_delay + budget ≤ total)
      → slept (on_failure p w rest k d e s).0 ≤ slept s + total
  unfolding on_failure
  on_failure-slept rest budget total k d e s within lt fits =
      let s' = (notify p w e (k + 1) s).0 in
      ground (
        arith,
        notify_slept e (k + 1) s,
        incr_slept (exhausted p.max_attempts) s',
        back_off-slept rest budget k d e s' within,
      )

  round-slept :
      (rest : ℕ → Option Exn → S → S × Outcome (Option A)) (budget total k d : ℕ) (s : S)
      → Within budget rest
      → k < p.max_attempts
      → (k + 1 < p.max_attempts → p.max_delay + budget ≤ total)
      → slept (round p w rest k d s).0 ≤ slept s + total
  unfolding round
  round-slept rest budget total k d s within lt fits = elim (Outcome-cases (w.func s).1) [
    | inl (a, out) ↦ ground (arith, out, func_slept s, incr_slept (success (k + 1)) (w.func s).0)
    | inr (e, out) ↦ ground (
      arith,
      out,
      func_slept s,
      on_failure-slept rest budget total k d e (w.func s).0 within lt fits,
    )
  ]

  rounds-slept :
      (n k : ℕ) → k + n ≡ p.max_attempts → Within ((n - 1) * p.max_delay) (rounds p w n k)
  unfolding rounds
  rounds-slept zero k e d last s = omega (arith, incr_slept (exhausted p.max_attempts) s)
  rounds-slept (suc n) k e d last s =
      round-slept (rounds p w n (k + 1)) ((n - 1) * p.max_delay) ((suc n - 1) * p.max_delay) k d s
        (rounds-slept n (k + 1) (omega arith)) (omega arith)
        (λ more. room n p.max_delay (omega arith))

  -- Whatever the function raises, a decorated call sleeps `max_attempts - 1` times `max_delay` at
  -- most, if the generator keeps to its range.
  pub async_wrapper-slept :
      (s : S) → slept (async_wrapper p w s).0 ≤ slept s + (p.max_attempts - 1) * p.max_delay
  unfolding async_wrapper
  async_wrapper-slept s = rounds-slept p.max_attempts 0 (omega arith) p.base_delay none s
