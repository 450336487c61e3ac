-- ===== src/CircuitBreaker/Redis/Agreement/Steps.antt =====
-- The script and the memory breaker, one atomic step of each.
use resilience_kit.Prelude.{ℕ, ◌+◌, ◌<◌, false, ◌≡◌, some, if◌then◌else◌, arith}
use resilience_kit.CircuitBreaker.{BreakerState, closed, «open», half_open, BreakerConfig}
use resilience_kit.CircuitBreaker.Lua.{
  BreakerHash, HashStore, is_available, record_success, record_failure, script, act, or_absent,
  after_success, after_failure, is_due, lifetime,
}
use resilience_kit.CircuitBreaker.Memory
use resilience_kit.CircuitBreaker.Memory.{Breaker}
use resilience_kit.CircuitBreaker.Redis.Sequence.{is_waking}

-- The hash of the server and the object in memory hold the same state, as far as the next step of
-- either can depend on it.
abbrev pub SameCounts : BreakerState → BreakerHash → Breaker → Type 0
SameCounts closed h b = h.failure_count ≡ b.failure_count
SameCounts «open» h b = b.opened_at ≡ some h.last_failure
SameCounts half_open h b = h.success_count ≡ b.success_count

pub record Agrees (c : BreakerConfig) (h : BreakerHash) (b : Breaker) : Type 0 where
  pub config : b.config ≡ c
  pub state : h.state ≡ b.state
  pub counts : SameCounts b.state h b

-- One atomic step of each.
unfoldable pub poll_hash : BreakerConfig → ℕ → BreakerHash → BreakerHash
poll_hash c now h = if is_due c now h then record h { state = half_open; success_count = 0 } else h

pub poll-Agrees :
    (c : BreakerConfig) (now : ℕ) (h : BreakerHash) (b : Breaker)
    → Agrees c h b
    → Agrees c (poll_hash c now h) (Memory.maybe_half_open now b)
unfolding poll_hash Memory.maybe_half_open
poll-Agrees c now h b g = ground (arith, g.config, g.state, g.counts)

pub success-Agrees :
    (c : BreakerConfig) (h : BreakerHash) (b : Breaker)
    → Agrees c h b
    → Agrees c (after_success c h.state h) (Memory.record_success b)
unfolding after_success Memory.record_success
success-Agrees c h b g = ground (arith, g.config, g.state, g.counts)

pub failure-Agrees :
    (c : BreakerConfig) (now : ℕ) (h : BreakerHash) (b : Breaker)
    → Memory.is_open b.state ≡ false
    → Agrees c h b
    → Agrees c (after_failure c now h.state h) (Memory.record_failure now b)
unfolding after_failure Memory.record_failure
failure-Agrees c now h b o g = ground (arith, g.config, g.state, g.counts)

pub is_due-Agrees :
    (c : BreakerConfig) (now : ℕ) (h : BreakerHash) (b : Breaker)
    → Agrees c h b
    → is_due c now h ≡ is_waking now b
unfolding Memory.maybe_half_open
is_due-Agrees c now h b g = ground (arith, g.config, g.state, g.counts)

module _ {S : Type 0} (store : HashStore S) (second : ℕ) where
  abbrev pub hash_of : ℕ → S → BreakerHash
  hash_of t s = or_absent (store.hmget t s)

  -- The hash that is read at any time before a limit.
  abbrev pub IsHeld : ℕ → S → BreakerHash → Type 0
  IsHeld limit s h = (t : ℕ) → t < limit → hash_of t s ≡ h

  hash_of-hmset :
      (h : BreakerHash) (ttl now t : ℕ) (s : S)
      → t < now + ttl
      → hash_of t (store.hmset h ttl now s) ≡ h
  hash_of-hmset h ttl now t s lt = ground (arith, lt, store.hmget-hmset h ttl now t s)

  module _ (c : BreakerConfig) (now limit : ℕ) (s : S) (h : BreakerHash) where
    pub script-poll :
        IsHeld limit s h
        → now < limit
        → IsHeld
            (if is_due c now h then now + lifetime second c else limit)
            (script store second c now is_available s).0
            (poll_hash c now h)
    unfolding script act poll_hash
    script-poll held before t lt = ground (
      arith,
      held now before,
      held t,
      lt,
      hash_of-hmset (poll_hash c now h) (lifetime second c) now t s,
    )

    pub script-flag :
        IsHeld limit s h
        → now < limit
        → (script store second c now is_available s).1.flag
          ≡ (if Memory.is_open (poll_hash c now h).state then 0 else 1)
    unfolding script act poll_hash
    script-flag held before = ground (arith, held now before)

    pub script-success :
        IsHeld limit s h
        → now < limit
        → Memory.is_open h.state ≡ false
        → IsHeld
            (now + lifetime second c)
            (script store second c now record_success s).0
            (after_success c h.state h)
    unfolding script act
    script-success held before o t lt = ground (
      arith,
      held now before,
      hash_of-hmset (after_success c h.state h) (lifetime second c) now t s lt,
    )

    pub script-failure :
        IsHeld limit s h
        → now < limit
        → Memory.is_open h.state ≡ false
        → IsHeld
            (now + lifetime second c)
            (script store second c now record_failure s).0
            (after_failure c now h.state h)
    unfolding script act
    script-failure held before o t lt =
        let written = after_failure c now h.state h in
        ground (arith, held now before, hash_of-hmset written (lifetime second c) now t s lt)
