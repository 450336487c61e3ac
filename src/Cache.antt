-- ===== src/Cache.antt =====
-- src/resilience_kit/cache: the backends are in the children.
pub mod Memory
pub mod Redis
