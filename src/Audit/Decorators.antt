-- ===== src/Audit/Decorators.antt =====
-- audit/decorators.py: `log_inbound` and `log_outbound`.
--
-- What is decorated, the payload factory, the context variables and the dispatcher are arguments over
-- the state `S` of all that they touch. Latencies are left out.
pub mod Captured
mod Samples
use resilience_kit.Prelude.{ℕ, String, Bool, Option, none, some, if◌then◌else◌}
use resilience_kit.Exceptions.{Cls, Exn, Outcome, returned, raised, known, exception, isinstance}
use resilience_kit.Audit.Sanitizers.{Fields, end}
use resilience_kit.Audit.Backends.{Direction, Verdict, success, failure, AuditEvent}

-- The arguments of the decorator, and what it works with.
pub record Capture (S : Type 0) : Type 0 where
  pub direction : Direction
  pub service : String
  pub method : String
  pub path : String
  pub payload_factory : Option (S → S × Outcome Fields)
  pub request_id : S → Option String
  pub correlation_id : S → Option String
  -- `getattr(exc, "error_code", None)`
  pub error_code : Exn → Option String
  -- `get_dispatcher().submit`
  pub submit : AuditEvent → S → S × Option Exn

module _ {S : Type 0} (c : Capture S) where
  unfoldable pub extract_payload : S → S × Outcome Fields
  extract_payload s = elim c.payload_factory [
    | none ↦ (s, returned end)
    | some factory ↦
        let (s', r) = factory s in
        elim r [
          | returned payload ↦ (s', returned payload)
          | raised e ↦ if isinstance e (known exception) then (s', returned end) else (s', raised e)
        ]
  ]

  abbrev pub event_of : Verdict → Option Cls → Option String → Fields → S → AuditEvent
  event_of outcome error_class error_code payload s = record {
    direction = c.direction;
    service = c.service;
    method = c.method;
    path = c.path;
    outcome = outcome;
    status = none;
    error_code = error_code;
    error_class = error_class;
    request_id = c.request_id s;
    correlation_id = c.correlation_id s;
    payload = payload;
    details = end;
  }

  -- `_emit`, on a payload that is extracted first: what gets through, if anything.
  unfoldable pub emit : Verdict → Option Cls → Option String → S → S × Option Exn
  unfolding extract_payload
  emit outcome error_class error_code s =
      let (s', p) = extract_payload s in
      elim p [
        | raised e ↦ (s', some e)
        | returned payload ↦
            let (s'', r) = c.submit (event_of outcome error_class error_code payload s') s' in
            elim r [
              | none ↦ (s'', none)
              | some e ↦ if isinstance e (known exception) then (s'', none) else (s'', some e)
            ]
      ]

  abbrev pub or_raised : {A : Type 0} → Outcome A → S × Option Exn → S × Outcome A
  or_raised out (s, none) = (s, out)
  or_raised out (s, some e) = (s, raised e)

  -- What follows the call of the function.
  unfoldable pub after_call : {A : Type 0} → S × Outcome A → S × Outcome A
  unfolding emit
  after_call (s, returned a) = or_raised (returned a) (emit success none none s)
  after_call (s, raised e) =
      if isinstance e (known exception)
      then or_raised (raised e) (emit failure (some e.cls) (c.error_code e) s)
      else (s, raised e)

  unfoldable pub wrap_async : {A : Type 0} → (S → S × Outcome A) → S → S × Outcome A
  unfolding after_call
  wrap_async func s = after_call (func s)

  -- The same of a function that is not a coroutine.
  unfoldable pub wrap_sync : {A : Type 0} → (S → S × Outcome A) → S → S × Outcome A
  unfolding after_call
  wrap_sync func s = after_call (func s)
