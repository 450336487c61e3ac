-- ===== src/CircuitBreaker/Redis/Agreement/Served.antt =====
-- The server's script beside the memory breaker, from run to run.
use resilience_kit.Prelude.{
  Option-cases, inl, inr, subst, ap, ◌∙◌, ℕ, ◌+◌, ◌<◌, true, false, ◌≡◌, some, if◌then◌else◌, arith,
}
use resilience_kit.Exceptions.{Outcome, returned}
use resilience_kit.CircuitBreaker.{BreakerConfig}
use resilience_kit.CircuitBreaker.Lua.{
  BreakerHash, HashStore, Action, is_available, record_success, record_failure, Reply, script,
  after_success, after_failure, lifetime,
}
use resilience_kit.CircuitBreaker.Memory
use resilience_kit.CircuitBreaker.Memory.{Breaker}
use resilience_kit.CircuitBreaker.Redis.{
  Client, State, load, evalsha, eval_loaded, eval, record_outcome, settle,
}
use resilience_kit.CircuitBreaker.Redis.Sequence.{
  apart, apart_in_memory, polled_limit, settled_limit,
}
use resilience_kit.CircuitBreaker.Redis.Agreement.Steps.{
  Agrees, IsHeld, is_due-Agrees, poll_hash, poll-Agrees, success-Agrees, failure-Agrees,
  script-poll, script-flag, script-success, script-failure,
}

-- What the server answers while it serves: it runs the script on its hash.
pub record Serves {S : Type 0} (client : Client S) (store : HashStore S) (second : ℕ) : Type 0 where
  pub loads : (s : S) → (sha : ℕ) × (client.script_load s ≡ (s, returned sha))
  pub runs :
      (sha : ℕ) (action : Action) (c : BreakerConfig) (now : ℕ) (s : S)
      → client.evalsha sha action c now s
        ≡ ((script store second c now action s).0, returned (script store second c now action s).1)

-- Until a limit, the server has a hash like the object in memory.
pub record Lasts {S : Type 0} (store : HashStore S) (second limit : ℕ) (c : BreakerConfig) (s : S)
    (m : Breaker) : Type 0 where
  pub hash : BreakerHash
  pub held : IsHeld store second limit s hash
  pub agrees : Agrees c hash m

module _ {S : Type 0} (client : Client S) (store : HashStore S) (second : ℕ)
    (serves : Serves client store second) where
  -- The state after a run: only the digest that is remembered changes beside the server.
  abbrev pub ran : Action → ℕ → ℕ → State S → State S
  ran action now sha st = record {
    breaker = record (st.breaker) { sha = some sha };
    server = (script store second st.breaker.config now action st.server).0;
  }

  abbrev pub reply_of : Action → ℕ → State S → Reply
  reply_of action now st = (script store second st.breaker.config now action st.server).1

  eval_loaded-runs :
      (action : Action) (now sha : ℕ) (st : State S)
      → st.breaker.sha ≡ some sha
      → eval_loaded client sha action now st
        ≡ (ran action now sha st, returned (reply_of action now st))
  unfolding eval_loaded evalsha
  eval_loaded-runs action now sha st k =
      ground (arith, serves.runs sha action st.breaker.config now st.server)

  pub eval-runs :
      (action : Action) (now : ℕ) (st : State S)
      → (sha : ℕ) × (eval client action now st
          ≡ (ran action now sha st, returned (reply_of action now st)))
  unfolding eval load
  eval-runs action now st = elim (Option-cases st.breaker.sha) [
    | inr (sha, k) ↦ (sha, ground (arith, eval_loaded-runs action now sha st))
    | inl k ↦
        let (sha, l) = serves.loads st.server in
        (
          sha,
          ground (
            arith,
            l,
            eval_loaded-runs action now sha
                (record st { breaker = record (st.breaker) { sha = some sha } }),
          ),
        )
  ]

  abbrev pub served : Action → BreakerConfig → ℕ → S → S
  served action c now s = (script store second c now action s).0

  pub served-poll :
      (c : BreakerConfig) (now limit : ℕ) (s : S) (m : Breaker)
      → now < limit
      → Lasts store second limit c s m
      → Lasts store second
          (polled_limit second c now m limit)
          c
          (served is_available c now s)
          (Memory.maybe_half_open now m)
  served-poll c now limit s m before l = record {
    hash = poll_hash c now l.hash;
    held =
        subst
          (λ due.
            IsHeld store second (if due then now + lifetime second c else limit)
              (served is_available c now s) (poll_hash c now l.hash))
          (is_due-Agrees c now l.hash m l.agrees)
          (script-poll store second c now limit s l.hash l.held before);
    agrees = poll-Agrees c now l.hash m l.agrees;
  }

  pub served-flag :
      (c : BreakerConfig) (now limit : ℕ) (s : S) (m : Breaker)
      → now < limit
      → Lasts store second limit c s m
      → (script store second c now is_available s).1.flag
        ≡ (if Memory.is_open (Memory.maybe_half_open now m).state then 0 else 1)
  served-flag c now limit s m before l =
      script-flag store second c now limit s l.hash l.held before
      ∙ ap (λ b. if Memory.is_open b then 0 else 1) (poll-Agrees c now l.hash m l.agrees).state

  served-success :
      (c : BreakerConfig) (now limit : ℕ) (s : S) (m : Breaker)
      → now < limit
      → Memory.is_open m.state ≡ false
      → Lasts store second limit c s m
      → Lasts store second
          (now + lifetime second c)
          c
          (served record_success c now s)
          (Memory.record_success m)
  served-success c now limit s m before o l = record {
    hash = after_success c l.hash.state l.hash;
    held =
        script-success store second c now limit s l.hash l.held before
          (ap Memory.is_open l.agrees.state ∙ o);
    agrees = success-Agrees c l.hash m l.agrees;
  }

  served-failure :
      (c : BreakerConfig) (now limit : ℕ) (s : S) (m : Breaker)
      → now < limit
      → Memory.is_open m.state ≡ false
      → Lasts store second limit c s m
      → Lasts store second
          (now + lifetime second c)
          c
          (served record_failure c now s)
          (Memory.record_failure now m)
  served-failure c now limit s m before o l = record {
    hash = after_failure c now l.hash.state l.hash;
    held =
        script-failure store second c now limit s l.hash l.held before
          (ap Memory.is_open l.agrees.state ∙ o);
    agrees = failure-Agrees c now l.hash m o l.agrees;
  }

  -- On the primary path, with the hash like the object in memory until a limit.
  abbrev pub InStep : ℕ → State S → Breaker → Type 0
  InStep limit st m =
      (st.breaker.health.healthy ≡ true) × Lasts store second limit st.breaker.config st.server m

  pub config_of :
      (limit : ℕ) (st : State S) (m : Breaker) → InStep limit st m → m.config ≡ st.breaker.config
  config_of limit st m i = i.1.agrees.config

  module _ {A : Type 0} (out : Outcome A) (t limit : ℕ) where
    pub settle-agrees :
        (st : State S) (m : Breaker)
        → t < limit
        → Memory.is_open m.state ≡ false
        → InStep limit st m
        → ((settle client (apart out t st)).1 ≡ out)
          × InStep
              (settled_limit second st.breaker.config out t limit)
              (settle client (apart out t st)).0
              (Memory.settle (apart_in_memory out t m))
    unfolding settle record_outcome Memory.settle
    settle-agrees st m before o i =
        let (sha, k) = eval-runs record_success t st in
        let (sha', k') = eval-runs record_failure t st in
        ground (
          arith,
          i,
          config_of limit st m i,
          k,
          k',
          served-success st.breaker.config t limit st.server m before o i.1,
          served-failure st.breaker.config t limit st.server m before o i.1,
        )
