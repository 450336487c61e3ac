-- ===== src/CircuitBreaker/Lua.antt =====
-- circuit_breaker/lua_scripts.py: `BREAKER_LUA`.
--
-- The hash of the breaker's key is read and written through a `HashStore`, whose laws are those of
-- HMGET, HMSET, EXPIRE and DEL. The script writes the four fields together, so that they are there
-- together. `second` is the number of ticks to a second. The time that the client gives is also the
-- server's, by which a key expires. The action `get_stats`, which the kit never sends, is
-- left out.
use resilience_kit.Prelude.{
  ℕ, ◌+◌, ◌-◌, ◌*◌, ◌/◌, ◌≡◌, Bool, true, false, ◌&&◌, Option, none, some, leb, ltb, if◌then◌else◌,
}
use resilience_kit.CircuitBreaker.{BreakerState, closed, «open», half_open, BreakerConfig}

pub record BreakerHash : Type 0 where
  pub state : BreakerState
  pub failure_count : ℕ
  pub success_count : ℕ
  pub last_failure : ℕ

pub record HashStore (S : Type 0) : Type 0 where
  -- at a time
  pub hmget : ℕ → S → Option BreakerHash
  -- HMSET at a time, and EXPIRE after a number of ticks
  pub hmset : BreakerHash → ℕ → ℕ → S → S
  pub del : S → S
  pub hmget-hmset :
      (h : BreakerHash) (ttl now later : ℕ) (s : S)
      → hmget later (hmset h ttl now s) ≡ (if ltb later (now + ttl) then some h else none)
  pub hmget-del : (later : ℕ) (s : S) → hmget later (del s) ≡ none

pub data Action : Type 0 where
  is_available record_success record_failure reset : Action

pub record Reply : Type 0 where
  pub flag : ℕ
  pub state : BreakerState
  pub remaining : ℕ

abbrev pub is_state_open : BreakerState → Bool
is_state_open «open» = true
is_state_open _ = false

abbrev pub absent_hash : BreakerHash
absent_hash = record { state = closed; failure_count = 0; success_count = 0; last_failure = 0 }

-- `read_state`
abbrev pub or_absent : Option BreakerHash → BreakerHash
or_absent none = absent_hash
or_absent (some h) = h

-- `math.ceil(recovery_timeout * 10)`, in seconds.
abbrev pub ttl_of : ℕ → BreakerConfig → ℕ
ttl_of second c = (c.reset_timeout * 10 + second - 1) / second

-- How long a hash is kept that is not written again.
abbrev pub lifetime : ℕ → BreakerConfig → ℕ
lifetime second c = ttl_of second c * second

-- What a success and a failure make of the hash, in each state.
unfoldable pub after_success : BreakerConfig → BreakerState → BreakerHash → BreakerHash
after_success c half_open h =
    let h' = record h { success_count = h.success_count + 1 } in
    if leb c.success_threshold h'.success_count
    then record h' { state = closed; failure_count = 0 }
    else h'
after_success c closed h = record h { failure_count = 0 }
after_success c «open» h = h

unfoldable pub after_failure : BreakerConfig → ℕ → BreakerState → BreakerHash → BreakerHash
after_failure c now half_open h = record h {
  state = «open»;
  failure_count = h.failure_count + 1;
  last_failure = now;
}
after_failure c now closed h =
    let h' = record h { failure_count = h.failure_count + 1; last_failure = now } in
    if leb c.fail_max h'.failure_count then record h' { state = «open» } else h'
after_failure c now «open» h = record h { failure_count = h.failure_count + 1; last_failure = now }

-- `(now - lf) >= recovery_timeout`, of an open breaker.
abbrev pub is_due : BreakerConfig → ℕ → BreakerHash → Bool
is_due c now h = is_state_open h.state && leb (h.last_failure + c.reset_timeout) now

module _ {S : Type 0} (store : HashStore S) (second : ℕ) (c : BreakerConfig) (now : ℕ) where
  -- From the actions on, with the hash as it is after the step to half open.
  unfoldable pub act : Action → BreakerHash → S → S × Reply
  unfolding after_success after_failure
  act is_available h s =
      if is_state_open h.state
      then (
        s,
        record { flag = 0; state = h.state; remaining = h.last_failure + c.reset_timeout - now },
      )
      else (s, record { flag = 1; state = h.state; remaining = 0 })
  act record_success h s =
      let h' = after_success c h.state h in
      (
        store.hmset h' (lifetime second c) now s,
        record { flag = 1; state = h'.state; remaining = 0 },
      )
  act record_failure h s =
      let h' = after_failure c now h.state h in
      (
        store.hmset h' (lifetime second c) now s,
        record {
          flag = 1;
          state = h'.state;
          remaining = if is_state_open h'.state then c.reset_timeout else 0;
        },
      )
  act reset h s = (store.del s, record { flag = 1; state = closed; remaining = 0 })

  unfoldable pub script : Action → S → S × Reply
  unfolding act
  script action s =
      let h = or_absent (store.hmget now s) in
      let h' = record h { state = half_open; success_count = 0 } in
      if is_due c now h
      then act action h' (store.hmset h' (lifetime second c) now s)
      else act action h s
