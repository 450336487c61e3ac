-- ===== src/Adapters/Limits/RetryAfter.antt =====
-- What a client can rely on that waits as long as it is told.
use resilience_kit.Exceptions.RateLimit.{RateLimit}
