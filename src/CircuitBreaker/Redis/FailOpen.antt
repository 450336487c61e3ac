-- ===== src/CircuitBreaker/Redis/FailOpen.antt =====
-- The Redis breaker when Redis fails: calls go over to the memory breaker.
use resilience_kit.Prelude.{Bool, Option-cases, ℕ, true, false, ◌≡◌, ◌⊎◌, inl, inr, none, arith}
use resilience_kit.Exceptions.{returned, Outcome, Outcome-cases, raised, isinstance}
use resilience_kit.Redis.{redis_error}
use resilience_kit.CircuitBreaker.Lua.{Action, is_available, record_success, record_failure}
use resilience_kit.CircuitBreaker.Memory
use resilience_kit.CircuitBreaker.Memory.{Breaker, service_unavailable}
use resilience_kit.CircuitBreaker.Redis.{
  Client, State, Awaited, mark_degraded, load, evalsha, eval_loaded, eval, record_outcome, settle,
  fallback_call, call,
}
use resilience_kit.CircuitBreaker.Redis.Sequence.{apart, apart_in_memory}
use resilience_kit.CircuitBreaker.{BreakerConfig}

-- Returned, or raised as an error of Redis.
abbrev pub is_as_redis : {A : Type 0} → Outcome A → Bool
is_as_redis (returned a) = true
is_as_redis (raised e) = isinstance e redis_error

-- The commands that `_eval` sends raise nothing but errors of Redis.
pub record FailsAsRedis {S : Type 0} (client : Client S) : Type 0 where
  pub loads : (s : S) → is_as_redis (client.script_load s).1 ≡ true
  pub runs :
      (sha : ℕ) (action : Action) (c : BreakerConfig) (now : ℕ) (s : S)
      → is_as_redis (client.evalsha sha action c now s).1 ≡ true

module _ {S : Type 0} (client : Client S) (fails : FailsAsRedis client) where
  load-is_as_redis : (st : State S) → is_as_redis (load client st).1 ≡ true
  unfolding load
  load-is_as_redis st = ground (arith, fails.loads st.server)

  evalsha-is_as_redis :
      (sha : ℕ) (action : Action) (now : ℕ) (st : State S)
      → is_as_redis (evalsha client sha action now st).1 ≡ true
  unfolding evalsha
  evalsha-is_as_redis sha action now st = fails.runs sha action st.breaker.config now st.server

  eval_loaded-is_as_redis :
      (sha : ℕ) (action : Action) (now : ℕ) (st : State S)
      → is_as_redis (eval_loaded client sha action now st).1 ≡ true
  unfolding eval_loaded
  eval_loaded-is_as_redis sha action now st =
      let st' = (evalsha client sha action now st).0 in
      elim (Outcome-cases (load client st').1) [
        | inl (sha', k) ↦ ground (
          arith,
          k,
          evalsha-is_as_redis sha action now st,
          evalsha-is_as_redis sha' action now (load client st').0,
        )
        | inr (e, k) ↦
            ground (arith, k, evalsha-is_as_redis sha action now st, load-is_as_redis st')
      ]

  eval-is_as_redis :
      (action : Action) (now : ℕ) (st : State S) → is_as_redis (eval client action now st).1 ≡ true
  unfolding eval
  eval-is_as_redis action now st = elim (Option-cases st.breaker.sha) [
    | inr (sha, k) ↦ ground (arith, k, eval_loaded-is_as_redis sha action now st)
    | inl n ↦ elim (Outcome-cases (load client st).1) [
      | inl (sha, k) ↦
          ground (arith, n, k, eval_loaded-is_as_redis sha action now (load client st).0)
      | inr (e, k) ↦ ground (arith, n, k, load-is_as_redis st)
    ]
  ]

module _ {S : Type 0} (client : Client S) where
  abbrev probed : ℕ → State S → State S
  probed now st = record st {
    breaker = record (st.breaker) { fallback = Memory.maybe_half_open now st.breaker.fallback };
  }

  record_outcome-ends :
      (action : Action) (now : ℕ) (st : State S)
      → is_as_redis (eval client action now st).1 ≡ true
      → (record_outcome client action now st).1 ≡ none
  unfolding record_outcome
  record_outcome-ends action now st h = elim (Outcome-cases (eval client action now st).1) [
    | inl (reply, k) ↦ ground (arith, k)
    | inr (e, k) ↦ ground (arith, k, h)
  ]

  module _ {A : Type 0} where
    fallback_call-ends :
        (now : ℕ) (func : State S → Awaited S A) (st : State S)
        → ((fallback_call client now func st).1 ≡ raised service_unavailable)
          ⊎ ((fallback_call client now func st).1 ≡ (func (probed now st)).outcome)
    unfolding fallback_call
    fallback_call-ends now func st = ground arith

    settle-ends :
        (r : Awaited S A)
        → (record_outcome client record_success r.time r.state).1 ≡ none
        → (record_outcome client record_failure r.time r.state).1 ≡ none
        → (settle client r).1 ≡ r.outcome
    unfolding settle
    settle-ends r s f = ground arith

    pack :
        (out : Outcome A) (func : State S → Awaited S A) (s s' s'' : State S)
        → (out ≡ raised service_unavailable)
          ⊎ (out ≡ (func s).outcome)
          ⊎ (out ≡ (func s').outcome)
          ⊎ (out ≡ (func s'').outcome)
        → (out ≡ raised service_unavailable) ⊎ ((s : State S) × (out ≡ (func s).outcome))
    pack out func s s' s'' (inl h) = inl h
    pack out func s s' s'' (inr (inl h)) = inr (s, h)
    pack out func s s' s'' (inr (inr (inl h))) = inr (s', h)
    pack out func s s' s'' (inr (inr (inr h))) = inr (s'', h)

    -- While the client's commands fail with nothing but errors of Redis, a call ends with the
    -- outcome of the function, or with the refusal of an open breaker: no error of the client gets
    -- through.
    pub call-fails_open :
        (now : ℕ) (func : State S → Awaited S A) (st : State S)
        → FailsAsRedis client
        → ((call client now func st).1 ≡ raised service_unavailable)
          ⊎ ((s : State S) × ((call client now func st).1 ≡ (func s).outcome))
    unfolding call
    call-fails_open now func st fails =
        let st' = (eval client is_available now st).0 in
        let r = func st' in
        let degraded = record st' { breaker = mark_degraded now st'.breaker } in
        pack (call client now func st).1 func st' (probed now st) (probed now degraded)
          (elim (Outcome-cases (eval client is_available now st).1) [
            | inl (reply, k) ↦ ground (
              arith,
              k,
              fallback_call-ends now func st,
              settle-ends r
                  (record_outcome-ends record_success r.time r.state
                    (eval-is_as_redis client fails record_success r.time r.state))
                  (record_outcome-ends record_failure r.time r.state
                    (eval-is_as_redis client fails record_failure r.time r.state)),
            )
            | inr (e, k) ↦ ground (
              arith,
              k,
              eval-is_as_redis client fails is_available now st,
              fallback_call-ends now func st,
              fallback_call-ends now func degraded,
            )
          ])

    -- While degraded, a call of a function through which no task touches the breaker is a call of
    -- the memory breaker that it embeds: the same outcome, the same successor, and the server is
    -- left alone.
    call-degraded :
        (out : Outcome A) (t now : ℕ) (st : State S)
        → st.breaker.health.healthy ≡ false
        → let (m, r) = Memory.call now (apart_in_memory out t) st.breaker.fallback in
          ((call client now (apart out t) st).1 ≡ r)
          × ((call client now (apart out t) st).0.breaker.fallback ≡ m)
          × ((call client now (apart out t) st).0.server ≡ st.server)
          × ((call client now (apart out t) st).0.breaker.health ≡ st.breaker.health)
    unfolding call fallback_call Memory.call
    call-degraded out t now st h = ground arith
