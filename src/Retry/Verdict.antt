-- ===== src/Retry/Verdict.antt =====
-- What the loop returns, against the sequence of outcomes that the wrapped function would have.
use resilience_kit.Prelude.{
  ℕ, zero, suc, ◌+◌, ◌<◌, ◌≡◌, refl, ◌∙◌, subst, sym, Bool, true, false, not, ◌&&◌, Option, none,
  some, arith, if◌then◌else◌,
}
use resilience_kit.Exceptions.{Exn, Outcome, returned, raised, isinstance, catches}
use resilience_kit.Retry.Loop.{
  Policy, World, RetryMetric, exhausted, unavailable, after_draw, notify, back_off, attempt,
  success, on_failure, round, rounds, async_wrapper,
}
use resilience_kit.Retry.Backoff.{next_delay}
use resilience_kit.Retry.Filter.{catches-filter_retry_on}

-- The failures after which a policy tries again.
abbrev pub retryable : Policy → Exn → Bool
retryable p e = not (isinstance e unavailable) && catches p.exceptions e

abbrev pub is_retryable : {A : Type 0} → Policy → Outcome A → Bool
is_retryable p (returned a) = false
is_retryable p (raised e) = retryable p e

abbrev pub lift : {A : Type 0} → Outcome A → Outcome (Option A)
lift (returned a) = returned (some a)
lift (raised e) = raised e

-- A world whose function has the outcome `outs n` at its n-th call, whose callback lets nothing
-- through and whose sleep is not interrupted.
pub record Scripted {S A : Type 0} (p : Policy) (w : World S A) : Type 0 where
  pub calls : S → ℕ
  pub outs : ℕ → Outcome A
  pub func_out : (s : S) → (w.func s).1 ≡ outs (calls s)
  pub func_calls : (s : S) → calls (w.func s).0 ≡ calls s + 1
  pub incr_calls : (m : RetryMetric) (s : S) → calls (w.incr m s) ≡ calls s
  pub drawn_calls : (s : S) → calls (after_draw p w p.jitter s) ≡ calls s
  pub notify_calls : (e : Exn) (n : ℕ) (s : S) → calls (notify p w e n s).0 ≡ calls s
  pub notify_quiet : (e : Exn) (n : ℕ) (s : S) → (notify p w e n s).1 ≡ none
  pub sleep_calls : (d : ℕ) (s : S) → calls (w.sleep d s).0 ≡ calls s
  pub sleep_quiet : (d : ℕ) (s : S) → (w.sleep d s).1 ≡ none

module _ {S A : Type 0} (p : Policy) (w : World S A) (sc : Scripted p w) where
  open sc use {calls, outs, func_out, func_calls, incr_calls, drawn_calls, notify_calls}
  open sc use {notify_quiet, sleep_calls, sleep_quiet}

  -- With its callback and its sleep quiet, `back_off` goes on to the next round.
  back_off-next :
      (rest : ℕ → Option Exn → S → S × Outcome (Option A)) (k d : ℕ) (e : Exn) (s : S)
      → (d' : ℕ) × (s' : S) × (back_off p w rest k d e s ≡ rest d' (some e) s')
        × (calls s' ≡ calls s)
  unfolding back_off
  back_off-next rest k d e s =
      let delay =
        next_delay p.jitter k d p.base_delay p.exponential_base p.max_delay (w.uniform s) in
      let s' = w.incr (attempt (k + 1)) (after_draw p w p.jitter s) in
      (
        delay,
        (w.sleep delay s').0,
        ground (arith, sleep_quiet delay s'),
        omega (
          arith,
          sleep_calls delay s',
          incr_calls (attempt (k + 1)) (after_draw p w p.jitter s),
          drawn_calls s,
        ),
      )

  -- A round whose failure may be tried again.
  round-retryable :
      (rest : ℕ → Option Exn → S → S × Outcome (Option A)) (k d : ℕ) (s : S) (e : Exn)
      → outs (calls s) ≡ raised e
      → retryable p e ≡ true
      → round p w rest k d s ≡ on_failure p w rest k d e (w.func s).0
  unfolding round
  round-retryable rest k d s e h r =
      ground (arith, func_out s, catches-filter_retry_on p.exceptions e)

  -- A round with any other outcome ends the loop with it.
  round-final :
      (rest : ℕ → Option Exn → S → S × Outcome (Option A)) (k d : ℕ) (s : S) (out : Outcome A)
      → outs (calls s) ≡ out
      → is_retryable p out ≡ false
      → ((round p w rest k d s).1 ≡ lift out) × (calls (round p w rest k d s).0 ≡ calls s + 1)
  unfolding round
  round-final rest k d s (returned a) h r =
      ground (arith, func_out s, func_calls s, incr_calls (success (k + 1)) (w.func s).0)
  round-final rest k d s (raised e) h r =
      ground (arith, func_out s, func_calls s, catches-filter_retry_on p.exceptions e)

  -- A failure before the last attempt.
  on_failure-next :
      (rest : ℕ → Option Exn → S → S × Outcome (Option A)) (k d : ℕ) (e : Exn) (s : S)
      → k + 1 < p.max_attempts
      → (d' : ℕ) × (s' : S) × (on_failure p w rest k d e s ≡ rest d' (some e) s')
        × (calls s' ≡ calls s)
  unfolding on_failure
  on_failure-next rest k d e s lt =
      let (d', s', next, count) = back_off-next rest k d e (notify p w e (k + 1) s).0 in
      (
        d',
        s',
        ground (arith, notify_quiet e (k + 1) s, next),
        omega (arith, count, notify_calls e (k + 1) s),
      )

  abbrev settled : Exn → Outcome (Option A)
  settled e = if p.raise_on_failure then raised e else returned none

  -- A failure at the last attempt.
  on_failure-last :
      (rest : ℕ → Option Exn → S → S × Outcome (Option A)) (k d : ℕ) (e : Exn) (s : S)
      → k + 1 ≡ p.max_attempts
      → ((on_failure p w rest k d e s).1 ≡ settled e)
        × (calls (on_failure p w rest k d e s).0 ≡ calls s)
  unfolding on_failure
  on_failure-last rest k d e s last = ground (
    arith,
    notify_quiet e (k + 1) s,
    notify_calls e (k + 1) s,
    incr_calls (exhausted p.max_attempts) (notify p w e (k + 1) s).0,
  )

  -- The first `j` outcomes from call `i` on are failures that the policy tries again.
  abbrev AllRetryable : ℕ → ℕ → Type 0
  AllRetryable i j = (n : ℕ) → n < j → is_retryable p (outs (i + n)) ≡ true

  raised_of_retryable :
      (out : Outcome A)
      → is_retryable p out ≡ true
      → (e : Exn) × (out ≡ raised e) × (retryable p e ≡ true)
  raised_of_retryable (returned a) h = cc
  raised_of_retryable (raised e) h = (e, refl, h)

  -- One round that is tried again, as a step of `rounds`.
  rounds-next :
      (n k d : ℕ) (last : Option Exn) (s : S)
      → is_retryable p (outs (calls s)) ≡ true
      → k + 1 < p.max_attempts
      → (d' : ℕ) × (e : Exn) × (s' : S) × (rounds p w (suc n) k d last s
          ≡ rounds p w n (k + 1) d' (some e) s')
        × (calls s' ≡ calls s + 1)
  unfolding rounds
  rounds-next n k d last s h lt =
      let (e, out, r) = raised_of_retryable (outs (calls s)) h in
      let (d', s', next, count) = on_failure-next (rounds p w n (k + 1)) k d e (w.func s).0 lt in
      (
        d',
        e,
        s',
        round-retryable (rounds p w n (k + 1)) k d s e out r ∙ next,
        omega (arith, count, func_calls s),
      )

  -- The hypotheses about the calls from `s` on, read from the state after one call.
  tail_retryable : (i i' j : ℕ) → i' ≡ i + 1 → AllRetryable i (suc j) → AllRetryable i' j
  tail_retryable i i' j e all n lt =
      subst (λ m. is_retryable p (outs m) ≡ true) (omega arith) (all (suc n) (omega arith))

  head_retryable : (i j : ℕ) → AllRetryable i (suc j) → is_retryable p (outs i) ≡ true
  head_retryable i j all =
      subst (λ m. is_retryable p (outs m) ≡ true) (omega arith) (all 0 (omega arith))

  rounds-first :
      (j n k d : ℕ) (last : Option Exn) (s : S) (out : Outcome A)
      → k + n ≡ p.max_attempts
      → j < n
      → AllRetryable (calls s) j
      → outs (calls s + j) ≡ out
      → is_retryable p out ≡ false
      → ((rounds p w n k d last s).1 ≡ lift out)
        × (calls (rounds p w n k d last s).0 ≡ calls s + j + 1)
  unfolding rounds
  rounds-first j zero k d last s out e lt all h r = absurd (omega arith)
  rounds-first zero (suc n) k d last s out e lt all h r =
      let h' : outs (calls s) ≡ out = subst (λ m. outs m ≡ out) (omega arith) h in
      let (res, total) = round-final (rounds p w n (k + 1)) k d s out h' r in
      (res, omega (arith, total))
  rounds-first (suc j) (suc n) k d last s out e lt all h r =
      let (d', x, s', next, count) =
        rounds-next n k d last s (head_retryable (calls s) j all) (omega arith) in
      let (res, total) =
        rounds-first j n (k + 1) d' (some x) s' out (omega arith) (omega arith)
          (tail_retryable (calls s) (calls s') j count all)
          (subst (λ m. outs m ≡ out) (omega (arith, count)) h) r in
      (rw next res, rw next (omega (arith, total, count)))

  rounds-exhausted :
      (n k d : ℕ) (last : Option Exn) (s : S) (x : Exn)
      → k + suc n ≡ p.max_attempts
      → AllRetryable (calls s) (suc n)
      → outs (calls s + n) ≡ raised x
      → ((rounds p w (suc n) k d last s).1 ≡ settled x)
        × (calls (rounds p w (suc n) k d last s).0 ≡ calls s + suc n)
  unfolding rounds
  rounds-exhausted zero k d last s x e all h =
      let h' : outs (calls s) ≡ raised x = subst (λ m. outs m ≡ raised x) (omega arith) h in
      let r : retryable p x ≡ true =
        subst (λ out. is_retryable p out ≡ true) h' (head_retryable (calls s) 0 all) in
      let (res, total) = on_failure-last (rounds p w 0 (k + 1)) k d x (w.func s).0 (omega arith) in
      rw (round-retryable (rounds p w 0 (k + 1)) k d s x h' r)
        (res, omega (arith, total, func_calls s))
  rounds-exhausted (suc n) k d last s x e all h =
      let (d', x', s', next, count) =
        rounds-next (suc n) k d last s (head_retryable (calls s) (suc n) all) (omega arith) in
      let (res, total) =
        rounds-exhausted n (k + 1) d' (some x') s' x (omega arith)
          (tail_retryable (calls s) (calls s') (suc n) count all)
          (subst (λ m. outs m ≡ raised x) (omega (arith, count)) h) in
      (rw next res, rw next (omega (arith, total, count)))

  -- If the first outcome that is no retryable failure is that of call j, counted from 0, and j is
  -- below `max_attempts`, then the decorated function ends with that outcome after j + 1 calls. A
  -- failure is retryable if some class of `exceptions` catches it and it is no breaker error.
  pub async_wrapper-first :
      (j : ℕ) (s : S) (out : Outcome A)
      → j < p.max_attempts
      → ((n : ℕ) → n < j → is_retryable p (outs (calls s + n)) ≡ true)
      → outs (calls s + j) ≡ out
      → is_retryable p out ≡ false
      → ((async_wrapper p w s).1 ≡ lift out) × (calls (async_wrapper p w s).0 ≡ calls s + j + 1)
  unfolding async_wrapper
  async_wrapper-first j s out lt all h r =
      rounds-first j p.max_attempts 0 p.base_delay none s out (omega arith) lt all h r

  -- If each of the m + 1 = `max_attempts` outcomes is a retryable failure, the function is called
  -- m + 1 times and the last failure is raised, or `None` returned if `raise_on_failure` is off.
  pub async_wrapper-exhausted :
      (m : ℕ) (s : S) (x : Exn)
      → p.max_attempts ≡ suc m
      → ((n : ℕ) → n < suc m → is_retryable p (outs (calls s + n)) ≡ true)
      → outs (calls s + m) ≡ raised x
      → ((async_wrapper p w s).1 ≡ (if p.raise_on_failure then raised x else returned none))
        × (calls (async_wrapper p w s).0 ≡ calls s + p.max_attempts)
  unfolding async_wrapper
  async_wrapper-exhausted m s x e all h =
      subst
        (λ t.
          ((rounds p w t 0 p.base_delay none s).1
            ≡ (if p.raise_on_failure then raised x else returned none))
          × (calls (rounds p w t 0 p.base_delay none s).0 ≡ calls s + t))
        (sym e) (rounds-exhausted m 0 p.base_delay none s x (omega arith) all h)
