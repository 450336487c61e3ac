-- ===== src/Metrics.antt =====
-- src/resilience_kit/metrics: the sink in use, and the wrapper that caps its labels.
pub mod Cardinality
pub mod Sink
