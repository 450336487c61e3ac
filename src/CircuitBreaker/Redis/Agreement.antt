-- ===== src/CircuitBreaker/Redis/Agreement.antt =====
-- The Redis breaker and the memory breaker on the same calls, while Redis serves.
mod Steps
pub mod Served
use resilience_kit.Prelude.{
  Bool-cases, Option-cases, inl, inr, subst, sym, ap, ap₂, ◌∙◌, ℕ, ◌+◌, ◌<◌, Bool, true, false,
  List, [], ◌∷◌, ◌≡◌, refl, Option, none, some, if◌then◌else◌, leb, arith, ◌||◌,
}
use resilience_kit.Exceptions.{
  Exn, Outcome, returned, raised, known, isinstance, catches, cancelled_error,
}
use resilience_kit.CircuitBreaker.{BreakerState, closed, «open», half_open, BreakerConfig}
use resilience_kit.CircuitBreaker.Lua.{
  BreakerHash, HashStore, Action, is_available, record_success, record_failure, Reply, script, act,
  absent_hash, or_absent, after_success, after_failure, is_due, lifetime,
}
use resilience_kit.CircuitBreaker.Memory
use resilience_kit.CircuitBreaker.Memory.{Breaker}
use resilience_kit.CircuitBreaker.Redis
use resilience_kit.CircuitBreaker.Redis.{
  Client, RedisBreaker, State, Awaited, load, evalsha, eval_loaded, eval, record_outcome, settle,
  call,
}
use resilience_kit.CircuitBreaker.Redis.Sequence.{
  apart, apart_in_memory, OneCall, outcomes, outcomes_in_memory, is_counted, is_waking,
  polled_limit, settled_limit, IsPrompt,
}
use resilience_kit.CircuitBreaker.Redis.Agreement.Steps.{
  SameCounts, Agrees, hash_of, IsHeld, is_due-Agrees, poll_hash, poll-Agrees, success-Agrees,
  failure-Agrees, script-poll, script-flag, script-success, script-failure,
}
use resilience_kit.CircuitBreaker.Redis.Agreement.Served.{
  Serves, ran, eval-runs, served, Lasts, served-poll, served-flag, InStep, config_of, settle-agrees,
}

module _ {S : Type 0} (client : Client S) (store : HashStore S) (second : ℕ)
    (serves : Serves client store second) where
  SameCounts-incr :
      (state : BreakerState) (h : BreakerHash) (m : Breaker)
      → SameCounts state h m
      → SameCounts state h (Memory.incr "breaker.short_circuit" m)
  SameCounts-incr closed h m e = e
  SameCounts-incr «open» h m e = e
  SameCounts-incr half_open h m e = e

  -- The metric of a refused call is no part of what is compared.
  refused-Lasts :
      (limit : ℕ) (c : BreakerConfig) (s : S) (m : Breaker)
      → Lasts store second limit c s m
      → Lasts store second limit c s (Memory.incr "breaker.short_circuit" m)
  refused-Lasts limit c s m l = record {
    hash = l.hash;
    held = l.held;
    agrees = record {
      config = l.agrees.config;
      state = l.agrees.state;
      counts = SameCounts-incr m.state l.hash m l.agrees.counts;
    };
  }

  module _ {A : Type 0} (o : OneCall A) (limit : ℕ) (st : State S) (m : Breaker) where
    abbrev polled : ℕ
    polled = polled_limit second st.breaker.config o.starts m limit

    call-refused :
        o.starts < limit
        → Memory.is_open (Memory.maybe_half_open o.starts m).state ≡ true
        → InStep client store second serves limit st m
        → ((call client o.starts (apart o.outcome o.ends) st).1
            ≡ (Memory.call o.starts (apart_in_memory o.outcome o.ends) m).1)
          × InStep client store second serves polled
              (call client o.starts (apart o.outcome o.ends) st).0
              (Memory.call o.starts (apart_in_memory o.outcome o.ends) m).0
    unfolding call Memory.call
    call-refused before refused i =
        let (sha, k) = eval-runs client store second serves is_available o.starts st in
        let l =
          served-poll client store second serves st.breaker.config o.starts limit st.server m before
            i.1 in
        let flag =
          served-flag client store second serves st.breaker.config o.starts limit st.server m before
            i.1 in
        ground (
          arith,
          i.0,
          k,
          refused,
          flag,
          refused-Lasts polled st.breaker.config
              (served client store second serves is_available st.breaker.config o.starts st.server)
              (Memory.maybe_half_open o.starts m) l,
        )

    call-let :
        o.starts < limit
        → Memory.is_open (Memory.maybe_half_open o.starts m).state ≡ false
        → o.ends < polled
        → InStep client store second serves limit st m
        → ((call client o.starts (apart o.outcome o.ends) st).1
            ≡ (Memory.call o.starts (apart_in_memory o.outcome o.ends) m).1)
          × InStep client store second serves
              (settled_limit second st.breaker.config o.outcome o.ends polled)
              (call client o.starts (apart o.outcome o.ends) st).0
              (Memory.call o.starts (apart_in_memory o.outcome o.ends) m).0
    unfolding call Memory.call
    call-let before open_gate within i =
        let (sha, k) = eval-runs client store second serves is_available o.starts st in
        let l =
          served-poll client store second serves st.breaker.config o.starts limit st.server m before
            i.1 in
        let flag =
          served-flag client store second serves st.breaker.config o.starts limit st.server m before
            i.1 in
        ground (
          arith,
          i.0,
          k,
          open_gate,
          flag,
          settle-agrees client store second serves o.outcome o.ends polled
              (ran client store second serves is_available o.starts sha st)
              (Memory.maybe_half_open o.starts m) within open_gate (i.0, l),
        )

  module _ {A : Type 0} where
    outcomes-InStep :
        (limit : ℕ) (st : State S) (m : Breaker) (os : List (OneCall A))
        → IsPrompt second limit m os
        → InStep client store second serves limit st m
        → outcomes client st os ≡ outcomes_in_memory m os
    unfolding outcomes outcomes_in_memory IsPrompt
    outcomes-InStep limit st m [] prompt i = refl
    outcomes-InStep limit st m (o ∷ os) prompt i =
        let m' = (Memory.call o.starts (apart_in_memory o.outcome o.ends) m).0 in
        let st' = (call client o.starts (apart o.outcome o.ends) st).0 in
        let config = config_of client store second serves limit st m i in
        elim (Bool-cases (Memory.is_open (Memory.maybe_half_open o.starts m).state)) [
          | inl refused ↦
              let (r, i') = call-refused o limit st m prompt.0 refused i in
              let rest : IsPrompt second (polled_limit second m.config o.starts m limit) m' os =
                ground (arith, prompt.1, refused) in
              ap₂ (λ x xs. x ∷ xs) r
                (outcomes-InStep (polled o limit st m) st' m' os
                  (subst (λ c. IsPrompt second (polled_limit second c o.starts m limit) m' os)
                    config rest)
                  i')
          | inr let_in ↦
              let within : o.ends < polled_limit second m.config o.starts m limit =
                ground (arith, prompt.1, let_in) in
              let rest : IsPrompt second
                  (settled_limit second m.config o.outcome o.ends
                    (polled_limit second m.config o.starts m limit))
                  m' os =
                ground (arith, prompt.1, let_in) in
              let (r, i') =
                call-let o limit st m prompt.0 let_in
                  (subst (λ c. o.ends < polled_limit second c o.starts m limit) config within) i in
              ap₂ (λ x xs. x ∷ xs) r
                (outcomes-InStep
                  (settled_limit second st.breaker.config o.outcome o.ends (polled o limit st m))
                  st' m' os
                  (subst
                    (λ c.
                      IsPrompt second
                        (settled_limit second c o.outcome o.ends
                          (polled_limit second c o.starts m limit))
                        m' os)
                    config rest)
                  i')
        ]

    -- While the server serves, any sequence of calls, one after another, on a breaker whose key
    -- the server does not hold at first gets from the Redis breaker the outcomes that the memory
    -- breaker gives, if no call finds the key expired: each starts, and its function ends if it is
    -- called, in less than ten recovery timeouts, in whole seconds rounded up, after the last
    -- outcome that was counted or step to half open. The server's clock is the caller's.
    pub outcomes_alike :
        (config : BreakerConfig) (s : S) (limit : ℕ) (os : List (OneCall A))
        → ((t : ℕ) → store.hmget t s ≡ none)
        → IsPrompt second limit (Memory.new config) os
        → outcomes client (record { breaker = Redis.new config; server = s }) os
          ≡ outcomes_in_memory (Memory.new config) os
    unfolding Redis.new Memory.new
    outcomes_alike config s limit os absent prompt = outcomes-InStep limit _ _ os prompt (
      refl,
      record {
        hash = absent_hash;
        held = λ t lt. ap or_absent (absent t);
        agrees = record { config = refl; state = refl; counts = refl };
      },
    )
