-- ===== src/Audit/Dispatch.antt =====
-- audit/dispatch.py: `FireAndForgetDispatcher`, from the flush of a batch on, and `InlineDispatcher`.
--
-- The queue, the worker and the batches are those of `Dispatch.FireAndForget`, whose flush is `flush`
-- here. `asyncio.sleep`, `random.random` (in thousandths) and the metrics sink are arguments; delays
-- are in microseconds. Log lines are left out.
pub mod Delivery
mod Samples
use resilience_kit.Prelude.{
  ℕ, zero, suc, ◌+◌, ◌-◌, ◌*◌, ◌^◌, min, String, Bool, true, false, List, [], ◌∷◌, ◌++◌, Option,
  none, some, map, ltb, length, if◌then◌else◌,
}
use resilience_kit.Exceptions.{Exn, Outcome, returned, raised, known, exception, isinstance}
use resilience_kit.Audit.Sanitizers.{Redactor, sanitize}
use resilience_kit.Audit.Backends.{AuditEvent, AuditBackend}

abbrev pub backend_max_attempts : ℕ
backend_max_attempts = 3

-- `_backoff_s`: the base in thousandths of a second, times a jitter in thousandths.
unfoldable pub backoff_s : ℕ → ℕ → ℕ
backoff_s attempt drawn = min (50 * 2 ^ (attempt - 1)) 1000 * (500 + drawn)

-- An `except Exception` that swallows.
abbrev pub swallow : Option Exn → Option Exn
swallow none = none
swallow (some e) = if isinstance e (known exception) then none else some e

module _ (lower : String → String) (sanitizer : Redactor) where
  unfoldable pub sanitize_event : AuditEvent → AuditEvent
  unfolding sanitize
  sanitize_event event = record event {
    payload = sanitize lower sanitizer event.payload;
    details = sanitize lower sanitizer event.details;
  }

pub record AuditWorld (S : Type 0) : Type 0 where
  pub backend : AuditBackend S
  pub fallback : AuditBackend S
  pub sleep : ℕ → S → S × Option Exn
  pub random : S → S × ℕ
  pub incr : String → ℕ → S → S

module _ {S : Type 0} (w : AuditWorld S) where
  -- `asyncio.sleep(self._backoff_s(attempt))`
  unfoldable pub pause : ℕ → S → S × Option Exn
  unfolding backoff_s
  pause attempt s = let (s', drawn) = w.random s in w.sleep (backoff_s attempt drawn) s'

  -- The loop of `_write_with_retry`: whether an attempt succeeded.
  unfoldable pub write_attempts : ℕ → ℕ → List AuditEvent → S → S × Outcome Bool
  unfolding pause
  write_attempts zero attempt events s = (s, returned false)
  write_attempts (suc n) attempt events s =
      let rest = write_attempts n (attempt + 1) events in
      let (s', r) = w.backend.write_many events s in
      elim r [
        | none ↦ (s', returned true)
        | some e ↦
            if isinstance e (known exception)
            then if ltb attempt backend_max_attempts
              then (let (s'', x) = pause attempt s' in
                  elim x [ none ↦ rest s'' | some c ↦ (s'', raised c) ])
              else rest s'
            else (s', raised e)
      ]

  -- What follows the loop.
  unfoldable pub write_fallback : List AuditEvent → S → S × Option Exn
  write_fallback events s =
      let (s', r) = w.fallback.write_many events (w.incr "audit.write_failed" (length events) s) in
      (s', swallow r)

  -- The exception that gets through, if any.
  unfoldable pub write_with_retry : List AuditEvent → S → S × Option Exn
  unfolding write_attempts write_fallback
  write_with_retry events s =
      let (s', r) = write_attempts backend_max_attempts 1 events s in
      elim r [
        | raised e ↦ (s', some e)
        | returned written ↦ if written then (s', none) else write_fallback events s'
      ]

  unfoldable pub flush : (String → String) → Redactor → List AuditEvent → S → S × Option Exn
  unfolding write_with_retry sanitize_event
  flush lower sanitizer batch = write_with_retry (map (sanitize_event lower sanitizer) batch)

-- `InlineDispatcher`: the events that wait for a flush.
unfoldable pub submit_inline :
    (String → String) → Redactor → AuditEvent → List AuditEvent → List AuditEvent × Bool
unfolding sanitize_event
submit_inline lower sanitizer event pending =
    (pending ++ sanitize_event lower sanitizer event ∷ [], true)

-- `flush`, and `aclose`, which is it.
unfoldable pub flush_inline :
    {S : Type 0} → AuditBackend S → List AuditEvent → S → List AuditEvent × S × Option Exn
flush_inline backend [] s = ([], s, none)
flush_inline backend (event ∷ events) s =
    let (s', r) = backend.write_many (event ∷ events) s in ([], s', r)
