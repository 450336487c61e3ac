-- ===== src/Adapters.antt =====
-- src/resilience_kit/adapters: what connects the kit to a framework.
pub mod Django
pub mod Envelope
pub mod Limits
