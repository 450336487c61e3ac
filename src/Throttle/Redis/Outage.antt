-- ===== src/Throttle/Redis/Outage.antt =====
-- The Redis throttle while Redis cannot be reached, in both fail modes.
use resilience_kit.Prelude.{
  ℕ, ◌/◌, String, true, false, ◌≡◌, ◌⊎◌, inl, inr, Option-cases, Bool-cases, arith,
}
use resilience_kit.Exceptions.{Exn, Outcome, returned, raised, isinstance}
use resilience_kit.Redis.{redis_error, no_script_error, degrade}
use resilience_kit.Throttle.{Rate, ThrottleDecision}
use resilience_kit.Throttle.Memory
use resilience_kit.Throttle.Memory.{Windows}
use resilience_kit.Throttle.Redis.{
  Client, State, RedisThrottle, fail_open, fail_closed, load, evalsha, eval_loaded, eval,
  try_recover, maybe_probe, degraded_decision, check_server, check, mark_degraded, decided, denied,
}

-- Every operation of the client raises the error, as redis-py does while it cannot connect.
pub record IsDown {S : Type 0} (client : Client S) (e : Exn) : Type 0 where
  pub of_redis : isinstance e redis_error ≡ true
  pub not_no_script : isinstance e no_script_error ≡ false
  pub script_load : (s : S) → (client.script_load s).1 ≡ raised e
  pub evalsha :
      (sha : ℕ) (key : String) (limit window : ℕ) (s : S)
      → (client.evalsha sha key limit window s).1 ≡ raised e
  pub ping : (s : S) → (client.ping s).1 ≡ raised e

-- Only the digest and the server can differ.
abbrev SameThrottle : RedisThrottle → RedisThrottle → Type 0
SameThrottle t t' =
    (t.health ≡ t'.health)
    × (t.fallback ≡ t'.fallback)
    × (t.fail_mode ≡ t'.fail_mode)
    × (t.last_probe_at ≡ t'.last_probe_at)

module _ {S : Type 0} (client : Client S) (second : ℕ) (e : Exn) (is_down : IsDown client e) where
  eval-down :
      (key : String) (rate : Rate) (st : State S)
      → ((eval client second key rate st).1 ≡ raised e)
        × SameThrottle (eval client second key rate st).0.throttle st.throttle
  unfolding eval eval_loaded load evalsha
  eval-down key rate st = elim (Option-cases st.throttle.sha) [
    | inl k ↦ ground (arith, k, is_down.script_load st.server)
    | inr (sha, k) ↦ ground (
      arith,
      k,
      is_down.not_no_script,
      is_down.evalsha sha key rate.count (rate.per_seconds / second) st.server,
    )
  ]

  -- The state in which a check decides by itself.
  try_recover-down :
      (st : State S)
      → ((try_recover client second st).1 ≡ returned false)
        × ((try_recover client second st).0.throttle ≡ st.throttle)
  unfolding try_recover
  try_recover-down st = ground (arith, is_down.of_redis, is_down.ping st.server)

  -- The check is left to the fail mode, at a degraded throttle like the one given.
  record Degrades (now : ℕ) (key : String) (rate : Rate) (st s : State S)
      (r : State S × Outcome ThrottleDecision) : Type 0 where
    ends : r ≡ decided client second (degraded_decision client second now key rate s)
    fallback : s.throttle.fallback ≡ st.throttle.fallback
    fail_mode : s.throttle.fail_mode ≡ st.throttle.fail_mode
    degraded : s.throttle.health.healthy ≡ false

  check_server-down :
      (now : ℕ) (key : String) (rate : Rate) (st : State S)
      → (s : State S) × Degrades now key rate st s (check_server client second now key rate st)
  unfolding check_server mark_degraded degrade
  check_server-down now key rate st =
      let st' = (eval client second key rate st).0 in
      (
        record st' { throttle = mark_degraded now st'.throttle },
        ground (arith, is_down.of_redis, eval-down key rate st),
      )

  check-down :
      (now : ℕ) (key : String) (rate : Rate) (st : State S)
      → (s : State S) × Degrades now key rate st s (check client second now key rate st)
  unfolding check maybe_probe
  check-down now key rate st = elim (Bool-cases st.throttle.health.healthy) [
    | inl h ↦
        let (s, g) = check_server-down now key rate st in
        (s, ground (arith, h, g.ends, g.fallback, g.fail_mode, g.degraded))
    | inr h ↦ (
      (maybe_probe client second now st).0,
      ground (
        arith,
        h,
        try_recover-down (record st { throttle = record (st.throttle) { last_probe_at = now } }),
      ),
    )
  ]

  -- While Redis cannot be reached, the fail mode `closed` denies every check, whatever the state of
  -- the throttle is, and the fail mode `open` decides as the memory throttle that it embeds does,
  -- and leaves that one as such a check does. Either way the throttle is degraded from then on.
  pub check-outage :
      (now : ℕ) (key : String) (rate : Rate) (st : State S)
      → let (st', out) = check client second now key rate st in
        (st'.throttle.health.healthy ≡ false)
        × (((st.throttle.fail_mode ≡ fail_closed)
              × (out ≡ returned (denied client second now rate))
              × (st'.throttle.fallback ≡ st.throttle.fallback))
            ⊎ ((st.throttle.fail_mode ≡ fail_open)
                × (out ≡ returned (Memory.check second now key rate st.throttle.fallback).1)
                × (st'.throttle.fallback
                    ≡ (Memory.check second now key rate st.throttle.fallback).0)))
  unfolding degraded_decision
  check-outage now key rate st =
      let (s, g) = check-down now key rate st in
      ground (arith, g.ends, g.fallback, g.fail_mode, g.degraded)
