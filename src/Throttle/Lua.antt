-- ===== src/Throttle/Lua.antt =====
-- throttle/lua_scripts.py: `SLIDING_WINDOW_LUA`.
--
-- The sorted set of the throttle's key is read and written through a `SortedSet`, whose laws are
-- those of ZREMRANGEBYSCORE, ZADD and EXPIRE. The counter in each member's name makes the member new,
-- so that a set is the list of its scores, the latest added first; the counter's key is left out.
-- Times are ticks, with `second` of them to a second; `window` is in seconds, as in the script.
pub mod Bound
mod Samples
use resilience_kit.Prelude.{
  ℕ, ◌+◌, ◌-◌, ◌*◌, ◌≡◌, Bool, List, [], ◌∷◌, Option, none, some, length, filter, leb, ltb, ◌==◌,
  if◌then◌else◌,
}
use resilience_kit.Throttle.Redis.{Reply}

pub record SortedSet (S : Type 0) : Type 0 where
  pub scores : S → List ℕ
  -- ZREMRANGEBYSCORE from 0 to a score, with it
  pub zremrangebyscore : ℕ → S → S
  pub zadd : ℕ → S → S
  pub expire : ℕ → S → S
  -- TTL, where it is not negative
  pub ttl : S → Option ℕ
  pub scores-zremrangebyscore :
      (cutoff : ℕ) (s : S)
      → scores (zremrangebyscore cutoff s) ≡ filter (λ x. ltb cutoff x) (scores s)
  pub scores-zadd : (x : ℕ) (s : S) → scores (zadd x s) ≡ x ∷ scores s
  pub scores-expire : (seconds : ℕ) (s : S) → scores (expire seconds s) ≡ scores s

abbrev pub ttl_or : ℕ → Option ℕ → ℕ
ttl_or window none = window
ttl_or window (some ttl) = ttl

module _ {S : Type 0} (set : SortedSet S) (second limit window : ℕ) where
  -- A negative cutoff removes nothing.
  unfoldable pub remove_old : ℕ → S → S
  remove_old now s =
      if ltb now (window * second) then s else set.zremrangebyscore (now - window * second) s

  unfoldable pub sliding_window : ℕ → S → S × Reply
  unfolding remove_old
  sliding_window now s =
      let s' = remove_old now s in
      let count = length (set.scores s') in
      if leb limit count
      then (s', record { allowed = 0; count = count; ttl = ttl_or window (set.ttl s') })
      else (
        set.expire window (set.zadd now s'),
        record { allowed = 1; count = count + 1; ttl = window },
      )

  -- The script at a sequence of times, the latest first, and the times that it allowed, likewise.
  unfoldable pub allowed_at : List ℕ → S → S × List ℕ
  unfolding sliding_window
  allowed_at [] s = (s, [])
  allowed_at (now ∷ earlier) s =
      let (s', log) = allowed_at earlier s in
      let (s'', reply) = sliding_window now s' in
      (s'', if reply.allowed == 0 then log else now ∷ log)
