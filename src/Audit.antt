-- ===== src/Audit.antt =====
-- src/resilience_kit/audit: the sanitisers of payloads.
pub mod Sanitizers
pub mod Backends
pub mod Dispatch
pub mod Decorators
