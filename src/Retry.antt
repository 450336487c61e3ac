-- ===== src/Retry.antt =====
-- src/resilience_kit/retry: the retry decorators and their delays.
pub mod Backoff
pub mod Loop
pub mod Filter
pub mod Delays
pub mod Keeps
pub mod Verdict
mod Samples
