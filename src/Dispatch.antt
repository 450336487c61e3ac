-- ===== src/Dispatch.antt =====
-- src/resilience_kit/dispatch: the worker is in the child.
pub mod FireAndForget
