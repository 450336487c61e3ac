-- ===== src/Audit/Backends.antt =====
-- audit/backends/base.py: the events, and what stores them.
--
-- Latencies and timestamps are left out, and so is what `health_check` and `close` do.
use resilience_kit.Prelude.{ℕ, String, List, Option}
use resilience_kit.Exceptions.{Cls, Exn}
use resilience_kit.Audit.Sanitizers.{Fields}

pub data Direction : Type 0 where
  inbound outbound : Direction

pub data Verdict : Type 0 where
  success failure : Verdict

pub record AuditEvent : Type 0 where
  pub direction : Direction
  pub service : String
  pub method : String
  pub path : String
  pub outcome : Verdict
  pub status : Option ℕ
  pub error_code : Option String
  pub error_class : Option Cls
  pub request_id : Option String
  pub correlation_id : Option String
  pub payload : Fields
  pub details : Fields

-- A backend, over the state of all that it touches.
pub record AuditBackend (S : Type 0) : Type 0 where
  pub name : String
  pub write_many : List AuditEvent → S → S × Option Exn
