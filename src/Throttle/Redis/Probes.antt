-- ===== src/Throttle/Redis/Probes.antt =====
-- The probes of a degraded Redis throttle, and its health.
use resilience_kit.Prelude.{ℕ, ◌+◌, ◌≤◌, String, false, ◌≡◌, ◌⊎◌, arith}
use resilience_kit.Throttle.{Rate}
use resilience_kit.Throttle.Redis.{
  Client, State, load, evalsha, eval_loaded, eval, try_recover, maybe_probe, degraded_decision,
  check_server, check, mark_degraded,
}

module _ {S : Type 0} (client : Client S) (second : ℕ) where
  eval-probes :
      (key : String) (rate : Rate) (st : State S)
      → (eval client second key rate st).0.throttle.last_probe_at ≡ st.throttle.last_probe_at
  unfolding eval eval_loaded load evalsha
  eval-probes key rate st = ground arith

  -- A check of a degraded throttle either leaves the server alone, or comes `probe_interval` after
  -- the last such check or later, and becomes the last one itself.
  check-probes_apart :
      (now : ℕ) (key : String) (rate : Rate) (st : State S)
      → st.throttle.health.healthy ≡ false
      → let st' = (check client second now key rate st).0 in
        ((st'.server ≡ st.server) × (st'.throttle.last_probe_at ≡ st.throttle.last_probe_at))
        ⊎ ((st.throttle.last_probe_at + st.throttle.probe_interval ≤ now)
            × (st'.throttle.last_probe_at ≡ now))
  unfolding check maybe_probe try_recover check_server mark_degraded degraded_decision
  check-probes_apart now key rate st h = ground (arith, h, eval-probes key rate)
