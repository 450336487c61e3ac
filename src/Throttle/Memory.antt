-- ===== src/Throttle/Memory.antt =====
-- throttle/memory_impl.py: `InMemoryAsyncThrottle`.
--
-- The state is `_windows`, each deque as the list of its times, the oldest first. The lock is left
-- out: `check` and `reset` run under it, so they are atomic. `second` is the number of ticks to a
-- second, which `int(…)` divides by.
pub mod Windows
pub mod Limit
pub mod Exact
pub mod Waiting
mod Samples
use resilience_kit.Prelude.{
  ℕ, ◌+◌, ◌-◌, ◌/◌, String, Bool, List, [], ◌∷◌, ◌++◌, Option, none, some, ltb, length,
  if◌then◌else◌,
}
use resilience_kit.Prelude.Dict
use resilience_kit.Prelude.Dict.{Dict}
use resilience_kit.Throttle.{Rate, ThrottleDecision}

abbrev pub Windows : Type 0
Windows = Dict (List ℕ)

-- `self._windows.setdefault(key, deque())`
abbrev pub window : Windows → String → List ℕ
window t key = elim (Dict.get t key) [ none ↦ [] | some w ↦ w ]

-- `while window and window[0] < cutoff: window.popleft()`, without the subtraction in `cutoff`.
unfoldable pub expire : ℕ → ℕ → List ℕ → List ℕ
expire per now [] = []
expire per now (oldest ∷ rest) =
    let rest' = expire per now rest in if ltb (oldest + per) now then rest' else oldest ∷ rest

-- `window[0] if window else now`
abbrev pub oldest_or : ℕ → List ℕ → ℕ
oldest_or now [] = now
oldest_or now (oldest ∷ rest) = oldest

-- The window of a key once an event at `now` is decided, and the decision.
unfoldable pub decide : ℕ → ℕ → Rate → List ℕ → List ℕ × ThrottleDecision
unfolding expire
decide second now rate w =
    let kept = expire rate.per_seconds now w in
    let current = length kept in
    let allowed = ltb current rate.count in
    let w' = if allowed then kept ++ now ∷ [] else kept in
    let expiry = oldest_or now w' + rate.per_seconds in
    (
      w',
      record {
        allowed = allowed;
        remaining = if allowed then rate.count - current - 1 else 0;
        limit = rate.count;
        reset_after = expiry - now;
        reset_at = expiry / second;
      },
    )

unfoldable pub check : ℕ → ℕ → String → Rate → Windows → Windows × ThrottleDecision
check second now key rate t =
    let (w', decision) = decide second now rate (window t key) in (Dict.put t key w', decision)

unfoldable pub reset : String → Windows → Windows
reset key t = Dict.pop t key

-- The times at which a sequence of checks of one key is allowed.
unfoldable pub admitted : ℕ → String → Rate → Windows → List ℕ → List ℕ
unfolding check
admitted second key rate t [] = []
admitted second key rate t (now ∷ later) =
    let (t', decision) = check second now key rate t in
    let rest = admitted second key rate t' later in if decision.allowed then now ∷ rest else rest
