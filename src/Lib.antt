-- ===== src/Lib.antt =====
-- Verification library of resilience-kit, a kernel of resilience primitives for Python services.
--
-- The program's parts and the modules that model them (paths from the repository's root, below
-- src/resilience_kit):
--
--   exceptions/                    Exceptions: the classes and `issubclass`, the table of statuses;
--                                  RateLimit: the headers of `RateLimitError`
--   context.py                     Context
--   runtime.py                     Runtime: the cached settings; Aliases: the old environment names
--   _providers.py, */provider.py   Providers, and Backends
--   health.py                      Health
--   tasks/                         Tasks
--   retry/                         Retry: Backoff (delays), Loop (the two wrappers)
--   circuit_breaker/memory_impl.py CircuitBreaker.Memory, with the types of base.py in CircuitBreaker
--   circuit_breaker/pybreaker_impl.py  CircuitBreaker.PyBreaker, over any breaker of pybreaker
--   throttle/memory_impl.py        Throttle.Memory, with the types of base.py in Throttle
--   cache/memory_impl.py           Cache.Memory
--   */redis_impl.py                CircuitBreaker.Redis, Throttle.Redis, Cache.Redis; what they share
--                                  in Redis, and the Lua scripts in CircuitBreaker.Lua, Throttle.Lua
--   _redis.py                      Redis.Clients
--   dispatch/fire_and_forget.py    Dispatch.FireAndForget
--   metrics/                       Metrics: Sink (__init__.py), Cardinality (cardinality.py)
--   audit/                         Audit: Sanitizers, Dispatch, Decorators, and Backends (the events)
--   ssrf/                          Ssrf
--   registry.py                    Registry
--   decorators.py                  Decorators, with retry_on_failure of retry/decorator.py
--   crypto/fernet.py               Crypto, with the key settings of settings.py
--   middleware/body_limit.py       Middleware.BodyLimit
--   middleware/selective_cors.py   Middleware.SelectiveCors
--   throttle/scopes.py             Throttle.Scopes
--   middleware/request_id.py       Middleware.RequestId, with security_headers.py
--   middleware/exception_logging.py  Middleware.Errors, with rate_limit_headers.py
--   adapters/django/middleware.py  Adapters.Django
--   adapters/fastapi/dependencies.py, adapters/django/drf_throttles.py
--                                  Adapters.Limits
--   adapters/_envelope.py          Adapters.Envelope, with the handlers of both frameworks
--   throttle/base.py               Throttle.Rates, the parser of rates; Throttle.Contract, the
--                                  protocol that the adapters use
--   recovery.py                    Recovery
--   http_client/                   HttpClient: Errors, DnsPin, Idempotency, Auth, Client
--
-- How they interact: a call through `resilient` runs `retry` inside `breaker.call`; `retry` re-raises
-- the breaker's `ServiceUnavailableError`, and the breaker counts what comes out of the retry loop.
-- The breaker is the one that the registry keeps for the service, in a heap that all call sites share.
-- A request of the HTTP client goes through the SSRF guard, the allow-list, the idempotency header and
-- `resilient`, and each attempt through the pinned transport, the mapping of httpx's errors and the
-- audit.
-- The status table turns what is raised in the end into a response.
--
-- The audit decorators hand events to a dispatcher, which is a `Dispatch.FireAndForget` whose flush
-- sanitises a batch and writes it. A recovery tick probes the backends that are on the roster.
--
-- The throttles of both frameworks check an `AsyncThrottle`, and raise
-- `RateLimitError`, which the middleware and the handlers answer with its headers. A provider builds a
-- backend by the chain of _providers.py, and a Redis backend puts itself on the roster that recovery
-- probes and that the readiness verdict reads. The sink in use is resolved by the same chain, and
-- wrapped in the cap on labels. The task queue is a dispatcher whose flush runs the handlers.
--
-- Each Redis backend embeds the memory backend, and goes over to it when the client raises an error
-- of Redis, until a probe finds Redis again.
--
-- How state is modelled: an object is a record or a list of its fields, a method a function from the
-- old state to the new one and its result, under the method's name in the source. Code between two
-- awaits, or under one lock, is one function; tasks that interleave are sequences of such functions.
-- Readings of the clock are arguments. What is called from outside src/ (the wrapped function,
-- callbacks, the random generator) is an argument too, with what is relied on as a named hypothesis;
-- redis-py is a record of functions over a state of server and connection, and httpx, the URL parser
-- and the resolver are functions of a `Platform` over the state of all that they touch.
--
-- Numbers: counts are natural numbers. Times and durations, floats in the source, are whole ticks
-- (say microseconds), so that rounding of floats is left out; a test `now - t >= d` is written as
-- `t + d <= now`, which agrees with the source for times in any order. A ratio such as
-- `exponential_base` is a fraction.
--
-- Fuel: loops over lists and over the attempts of a policy need none. The loop over the warm hooks of
-- Recovery runs over a live list, so it has fuel; one more than the number of hooks is enough where no
-- hook registers another.
--
-- Not modelled: the fixed-window script, which no class uses, the sessions of httpx, the
-- declarations of the settings, the glue that installs routes, middleware,
-- threads and fields in the frameworks, exporters and audit backends that only do I/O, test doubles,
-- log lines, locks and event loops.
mod Prelude
pub mod Exceptions
pub mod Redis
pub mod Retry
pub mod CircuitBreaker
pub mod Throttle
pub mod Cache
pub mod Dispatch
pub mod Metrics
pub mod Adapters
pub mod Audit
pub mod Ssrf
pub mod Registry
pub mod Decorators
pub mod Context
pub mod Crypto
pub mod HttpClient
pub mod Middleware
pub mod Recovery
pub mod Runtime
pub mod Tasks
pub mod Providers
pub mod Health
