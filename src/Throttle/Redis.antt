-- ===== src/Throttle/Redis.antt =====
-- throttle/redis_impl.py: `RedisAsyncThrottle`.
--
-- The client's operations return or raise, and move a state `S` of server and connection. A method
-- is one function of the reading of the clock, so that what other tasks do while it waits for the
-- server is left out. The two clocks are one, and `second` is the number of ticks to a second.
pub mod Outage
pub mod Probes
pub mod Management
mod Samples
use resilience_kit.Prelude.{
  ℕ, ◌+◌, ◌-◌, ◌*◌, ◌/◌, String, Bool, true, false, List, [], ◌∷◌, Option, none, some, ◌==◌, ltb,
  not, if◌then◌else◌,
}
use resilience_kit.Exceptions.{Exn, Outcome, returned, raised, isinstance}
use resilience_kit.Redis.{
  redis_error, no_script_error, Health, all_well, degrade, snapshot_degraded, HealthSnapshot,
  BackendName,
}
use resilience_kit.Throttle.{Rate, ThrottleDecision}
use resilience_kit.Throttle.Memory
use resilience_kit.Throttle.Memory.{Windows}

-- `(allowed, count, ttl)`
pub record Reply : Type 0 where
  pub allowed : ℕ
  pub count : ℕ
  pub ttl : ℕ

-- redis-py, as far as the throttle calls it. The arguments of `evalsha` are the digest, the key,
-- the limit and the window in whole seconds.
pub record Client (S : Type 0) : Type 0 where
  pub script_load : S → S × Outcome ℕ
  pub evalsha : ℕ → String → ℕ → ℕ → S → S × Outcome Reply
  pub delete : String → S → S × Outcome ℕ
  pub ping : S → S × Outcome (Unit {0})

pub data FailMode : Type 0 where
  fail_open fail_closed : FailMode

pub record RedisThrottle : Type 0 where
  pub sha : Option ℕ
  pub health : Health
  pub last_probe_at : ℕ
  pub probe_interval : ℕ
  pub fail_mode : FailMode
  pub fallback : Windows
  pub metrics : List String

unfoldable pub new : ℕ → FailMode → RedisThrottle
new probe_interval fail_mode = record {
  sha = none;
  health = all_well;
  last_probe_at = 0;
  probe_interval = probe_interval;
  fail_mode = fail_mode;
  fallback = [];
  metrics = [];
}

abbrev pub incr : String → RedisThrottle → RedisThrottle
incr m t = record t { metrics = m ∷ t.metrics }

unfoldable pub mark_degraded : ℕ → RedisThrottle → RedisThrottle
unfolding degrade
mark_degraded now t = incr "throttle.degraded" (record t { health = degrade now t.health })

-- The object and the server.
pub record State (S : Type 0) : Type 0 where
  pub throttle : RedisThrottle
  pub server : S

module _ {S : Type 0} (client : Client S) (second : ℕ) where
  unfoldable pub load : State S → State S × Outcome ℕ
  load st =
      let (server, r) = client.script_load st.server in
      elim r [
        | returned sha ↦ (
          record { throttle = record (st.throttle) { sha = some sha }; server = server },
          returned sha,
        )
        | raised e ↦ (record st { server = server }, raised e)
      ]

  unfoldable pub evalsha : ℕ → String → Rate → State S → State S × Outcome Reply
  evalsha sha key rate st =
      let (server, r) = client.evalsha sha key rate.count (rate.per_seconds / second) st.server in
      (record st { server = server }, r)

  -- With the script loaded: once more if the server has forgotten it.
  unfoldable pub eval_loaded : ℕ → String → Rate → State S → State S × Outcome Reply
  unfolding load evalsha
  eval_loaded sha key rate st =
      let (st', r) = evalsha sha key rate st in
      elim r [
        | returned reply ↦ (st', returned reply)
        | raised e ↦
            if isinstance e no_script_error
            then (let (st'', r') = load st' in
                elim r' [
                  | returned sha' ↦ evalsha sha' key rate st''
                  | raised e' ↦ (st'', raised e')
                ])
            else (st', raised e)
      ]

  unfoldable pub eval : String → Rate → State S → State S × Outcome Reply
  unfolding eval_loaded
  eval key rate st = elim st.throttle.sha [
    | some sha ↦ eval_loaded sha key rate st
    | none ↦
        let (st', r) = load st in
        elim r [ returned sha ↦ eval_loaded sha key rate st' | raised e ↦ (st', raised e) ]
  ]

  unfoldable pub try_recover : State S → State S × Outcome Bool
  try_recover st =
      if st.throttle.health.healthy
      then (st, returned false)
      else let (server, r) = client.ping st.server in
        let st' = record st { server = server } in
        elim r [
          | returned pong ↦ (
            record st' {
              throttle = incr "throttle.recovered" (record (st'.throttle) { health = all_well });
            },
            returned true,
          )
          | raised e ↦ if isinstance e redis_error then (st', returned false) else (st', raised e)
        ]

  -- `now - self._last_probe_at < self._probe_interval`
  abbrev pub is_too_early : ℕ → RedisThrottle → Bool
  is_too_early now t = ltb now (t.last_probe_at + t.probe_interval)

  unfoldable pub maybe_probe : ℕ → State S → State S × Outcome Bool
  unfolding try_recover
  maybe_probe now st =
      if is_too_early now st.throttle
      then (st, returned false)
      else try_recover (record st { throttle = record (st.throttle) { last_probe_at = now } })

  -- The answer of the fail mode `closed`.
  abbrev pub denied : ℕ → Rate → ThrottleDecision
  denied now rate = record {
    allowed = false;
    remaining = 0;
    limit = rate.count;
    reset_after = rate.per_seconds;
    reset_at = now / second + rate.per_seconds / second;
  }

  unfoldable pub degraded_decision : ℕ → String → Rate → State S → State S × ThrottleDecision
  unfolding Memory.check
  degraded_decision now key rate st = elim st.throttle.fail_mode [
    | fail_closed ↦
        (record st { throttle = incr "throttle.fail_closed" st.throttle }, denied now rate)
    | fail_open ↦
        let (w, decision) = Memory.check second now key rate st.throttle.fallback in
        (record st { throttle = record (st.throttle) { fallback = w } }, decision)
  ]

  abbrev pub decided : State S × ThrottleDecision → State S × Outcome ThrottleDecision
  decided (st, decision) = (st, returned decision)

  -- From the decision of the server.
  abbrev pub decision_of : ℕ → Rate → Reply → ThrottleDecision
  decision_of now rate reply = record {
    allowed = not (reply.allowed == 0);
    remaining = rate.count - reply.count;
    limit = rate.count;
    reset_after = reply.ttl * second;
    reset_at = now / second + reply.ttl;
  }

  -- `check`, on the primary path.
  unfoldable pub check_server : ℕ → String → Rate → State S → State S × Outcome ThrottleDecision
  unfolding eval mark_degraded degraded_decision
  check_server now key rate st =
      let (st', r) = eval key rate st in
      elim r [
        | returned reply ↦ (st', returned (decision_of now rate reply))
        | raised e ↦
            if isinstance e redis_error
            then decided (
                degraded_decision now key rate
                  (record st' { throttle = mark_degraded now st'.throttle }))
            else (st', raised e)
      ]

  unfoldable pub check : ℕ → String → Rate → State S → State S × Outcome ThrottleDecision
  unfolding maybe_probe check_server degraded_decision
  check now key rate st =
      if st.throttle.health.healthy
      then check_server now key rate st
      else let (st', probe) = maybe_probe now st in
        elim probe [
          | raised e ↦ (st', raised e)
          | returned back ↦
              if back
              then check_server now key rate st'
              else decided (degraded_decision now key rate st')
        ]
