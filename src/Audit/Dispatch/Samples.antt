-- ===== src/Audit/Dispatch/Samples.antt =====
-- A dispatcher over a backend that fails four times, and the theorems at it.
use resilience_kit.Prelude.{
  ℕ, ◌-◌, String, List, [], ◌∷◌, none, some, map, ltb, ◌≡◌, refl, arith, if◌then◌else◌,
}
use resilience_kit.Exceptions.{Exn, known, runtime_error, issubclass}
use resilience_kit.Audit.Sanitizers.{str, end, field, Redactor, is_redacted_key}
use resilience_kit.Audit.Sanitizers.Interference.{secret, ends}
use resilience_kit.Audit.Backends.{AuditEvent, inbound, success}
use resilience_kit.Audit.Dispatch.{sanitize_event, AuditWorld, flush}
use resilience_kit.Audit.Dispatch.Delivery.{
  no_events, also, flush-SameBatch, IsReliable, flush_stored,
}

abbrev as_is : String → String
as_is s = s

abbrev redactor : Redactor
redactor = record { fields = "password" ∷ []; patterns = [] }

abbrev login : String → AuditEvent
login password = record {
  direction = inbound;
  service = "auth";
  method = "POST";
  path = "/login";
  outcome = success;
  status = some 200;
  error_code = none;
  error_class = none;
  request_id = none;
  correlation_id = none;
  payload = field "password" (str password) end;
  details = end;
}

record Storage : Type 0 where
  failures : ℕ
  stored : List AuditEvent
  slept : ℕ

abbrev down : Exn
down = record { cls = known runtime_error; payload = 0 }

abbrev world : AuditWorld Storage
world = record {
  backend = record {
    name = "Flaky";
    write_many = λ events s.
        if ltb 0 s.failures
        then (record s { failures = s.failures - 1 }, some down)
        else (record s { stored = events }, none);
  };
  fallback = record {
    name = "StdlibLoggingAuditBackend";
    write_many = λ events s. (record s { stored = events }, none);
  };
  sleep = λ n s. (record s { slept = n }, none);
  random = λ s. (s, 250);
  incr = λ metric n s. s;
}

abbrev start : Storage
start = record { failures = 4; stored = []; slept = 0 }

-- The third attempt fails without a pause after it, and the fallback stores the batch.
flush_falls_back :
    flush world as_is redactor (login "abc" ∷ []) start
    ≡ (record { failures = 1; stored = login "[REDACTED]" ∷ []; slept = 75000 }, none)
unfolding flush is_redacted_key issubclass
flush_falls_back = refl

flush-SameBatch_example :
    flush world as_is redactor (login "abc" ∷ []) start
    ≡ flush world as_is redactor (login "xyz" ∷ []) start
unfolding is_redacted_key
flush-SameBatch_example =
    flush-SameBatch as_is redactor world (login "abc" ∷ []) (login "xyz" ∷ []) start (
      also (login "abc") (field "password" (str "xyz") end) end
        (secret "password" (str "abc") (str "xyz") refl ends) ends no_events)

abbrev HasBatch : Storage → Type 0
HasBatch s = s.stored ≡ map (sanitize_event as_is redactor) (login "abc" ∷ [])

world-IsReliable :
    IsReliable world HasBatch (map (sanitize_event as_is redactor) (login "abc" ∷ []))
unfolding issubclass
world-IsReliable = record {
  sleeps = λ n s. refl;
  backend_exceptions = λ s e h. ground (arith, h);
  backend_stores = λ s h. ground (arith, h);
  fallback_stores = λ s. (refl, refl);
}

flush_stored_example :
    ((flush world as_is redactor (login "abc" ∷ []) start).1 ≡ none)
    × HasBatch (flush world as_is redactor (login "abc" ∷ []) start).0
flush_stored_example =
    flush_stored world HasBatch as_is redactor (login "abc" ∷ []) start world-IsReliable
