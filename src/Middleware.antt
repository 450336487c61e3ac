-- ===== src/Middleware.antt =====
-- src/resilience_kit/middleware: the ASGI middleware that does not depend on a framework.
pub mod Asgi
pub mod BodyLimit
pub mod Errors
pub mod SelectiveCors
pub mod RequestId
