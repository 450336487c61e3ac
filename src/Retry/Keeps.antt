-- ===== src/Retry/Keeps.antt =====
-- What no operation of the world changes, the loop does not change either.
use resilience_kit.Prelude.{ℕ, zero, suc, ◌+◌, ◌≡◌, refl, Option, none, some, inl, inr, arith}
use resilience_kit.Exceptions.{Exn, Outcome, Outcome-cases}
use resilience_kit.Retry.Backoff.{Jitter, next_delay}
use resilience_kit.Retry.Loop.{
  Policy, World, RetryMetric, exhausted, attempt, success, after_loop, notify, after_draw, back_off,
  on_failure, round, rounds, async_wrapper,
}

-- A world without a callback that keeps what `f` reads.
pub record Keeps {S A X : Type 0} (w : World S A) (f : S → X) : Type 0 where
  pub no_callback : w.on_error ≡ none
  pub func : (s : S) → f (w.func s).0 ≡ f s
  pub sleep : (d : ℕ) (s : S) → f (w.sleep d s).0 ≡ f s
  pub drawn : (s : S) → f (w.drawn s) ≡ f s
  pub incr : (m : RetryMetric) (s : S) → f (w.incr m s) ≡ f s

module _ {S A X : Type 0} (p : Policy) (w : World S A) (f : S → X) (k : Keeps w f) where
  abbrev KeepsRest : (ℕ → Option Exn → S → S × Outcome (Option A)) → Type 0
  KeepsRest rest = (d : ℕ) (last : Option Exn) (s : S) → f (rest d last s).0 ≡ f s

  after_draw_keeps : (j : Jitter) (s : S) → f (after_draw p w j s) ≡ f s
  unfolding after_draw
  after_draw_keeps Jitter.none s = refl
  after_draw_keeps Jitter.full s = k.drawn s
  after_draw_keeps Jitter.decorrelated s = k.drawn s

  notify_keeps : (e : Exn) (n : ℕ) (s : S) → f (notify p w e n s).0 ≡ f s
  unfolding notify
  notify_keeps e n s = ground (arith, k.no_callback)

  back_off_keeps :
      (rest : ℕ → Option Exn → S → S × Outcome (Option A)) (n d : ℕ) (e : Exn) (s : S)
      → KeepsRest rest
      → f (back_off p w rest n d e s).0 ≡ f s
  unfolding back_off
  back_off_keeps rest n d e s h =
      let delay =
        next_delay p.jitter n d p.base_delay p.exponential_base p.max_delay (w.uniform s) in
      let s' = after_draw p w p.jitter s in
      let s'' = w.incr (attempt (n + 1)) s' in
      ground (
        arith,
        after_draw_keeps p.jitter s,
        k.incr (attempt (n + 1)) s',
        k.sleep delay s'',
        h delay (some e) (w.sleep delay s'').0,
      )

  on_failure_keeps :
      (rest : ℕ → Option Exn → S → S × Outcome (Option A)) (n d : ℕ) (e : Exn) (s : S)
      → KeepsRest rest
      → f (on_failure p w rest n d e s).0 ≡ f s
  unfolding on_failure after_loop
  on_failure_keeps rest n d e s h =
      let s' = (notify p w e (n + 1) s).0 in
      ground (
        arith,
        notify_keeps e (n + 1) s,
        k.incr (exhausted p.max_attempts) s',
        back_off_keeps rest n d e s' h,
      )

  round_keeps :
      (rest : ℕ → Option Exn → S → S × Outcome (Option A)) (n d : ℕ) (s : S)
      → KeepsRest rest
      → f (round p w rest n d s).0 ≡ f s
  unfolding round
  round_keeps rest n d s h = elim (Outcome-cases (w.func s).1) [
    | inl (a, out) ↦ ground (arith, out, k.func s, k.incr (success (n + 1)) (w.func s).0)
    | inr (e, out) ↦ ground (arith, out, k.func s, on_failure_keeps rest n d e (w.func s).0 h)
  ]

  rounds_keeps : (n m : ℕ) → KeepsRest (rounds p w n m)
  unfolding rounds after_loop
  rounds_keeps zero m d last s = k.incr (exhausted p.max_attempts) s
  rounds_keeps (suc n) m d last s =
      round_keeps (rounds p w n (m + 1)) m d s (rounds_keeps n (m + 1))

  pub async_wrapper_keeps : (s : S) → f (async_wrapper p w s).0 ≡ f s
  unfolding async_wrapper
  async_wrapper_keeps s = rounds_keeps p.max_attempts 0 p.base_delay none s
