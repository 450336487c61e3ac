-- ===== src/Middleware/Errors/Samples.antt =====
-- Applications that raise, and the theorems at them.
use resilience_kit.Prelude.{
  ℕ, zero, suc, String, List, [], ◌∷◌, ◌++◌, Option, none, some, ◌≡◌, refl, arith, if◌then◌else◌,
}
use resilience_kit.Exceptions.{
  Exn, Outcome, returned, known, exception, rate_limit_error, value_error, key_error, issubclass,
  http_status_for,
}
use resilience_kit.Exceptions.RateLimit.{RateLimit, whole_seconds}
use resilience_kit.Middleware.Asgi.{Scope, Frame, response_start, response_body}
use resilience_kit.Middleware.Errors.{
  Errors, Envelope, kit_error, limit_error, internal_error, App, json, log_exceptions,
  rate_limit_headers,
}
use resilience_kit.Middleware.Errors.Answered.{has_start, TakesResponse, IsPrintable, stack_answers}

abbrev text_of : ℕ → String
text_of zero = "0"
text_of (suc n) = "some"

abbrev dumps : Envelope → Outcome String
dumps (kit_error code message details) = returned code
dumps (limit_error code details) = returned code
dumps internal_error = returned "INTERNAL_ERROR"

-- A server that takes one start.
abbrev refuses : List Frame → Frame → Option Exn
refuses sent (response_start status headers) =
    if has_start sent then some (record { cls = known exception; payload = 9 }) else none
refuses sent (response_body body) = none

abbrev errors : Errors
errors = record {
  own_code = λ n. none;
  message = λ e. "";
  details = λ e. [];
  limit_of =
      λ e. record { limit = 2; remaining = 0; reset_at = 60; retry_after = 1500; scope = none };
  text_of = text_of;
  second = 1000;
  lower = λ s. s;
  dumps = dumps;
  refuses = refuses;
}

abbrev request : Scope
request = record { type_of = "http"; method = some "GET"; path = "/"; headers = [] }

abbrev raising : List Frame → Exn → App ℕ
raising frames e scope n = (n, frames, some e)

abbrev limited : Exn
limited = record { cls = known rate_limit_error; payload = 0 }

abbrev bad_value : Exn
bad_value = record { cls = known value_error; payload = 1 }

abbrev bad_key : Exn
bad_key = record { cls = known key_error; payload = 2 }

-- The headers of the limit are sent if `rate_limit_headers` is the inner one.
limited_answer :
    log_exceptions errors (rate_limit_headers errors (raising [] limited)) request 0 ≡ (
      0,
      response_start 429 (
            json
            ∷ ("Retry-After", "some")
            ∷ ("X-RateLimit-Limit", "some")
            ∷ ("X-RateLimit-Remaining", "0")
            ∷ ("X-RateLimit-Reset", "some")
            ∷ [])
          ∷ response_body "RATE_LIMIT_EXCEEDED"
          ∷ [],
      none,
    )
unfolding log_exceptions rate_limit_headers whole_seconds issubclass
    resilience_kit.Exceptions.RateLimit.response_headers resilience_kit.Exceptions.error_code
limited_answer = refl

-- Of a response that has been started, a second start is what the server refuses.
second_start :
    log_exceptions errors (raising (response_start 200 [] ∷ []) bad_value) request 0
    ≡ (0, response_start 200 [] ∷ [], some (record { cls = known exception; payload = 9 }))
unfolding log_exceptions issubclass
second_start = refl

errors-TakesResponse : TakesResponse errors
errors-TakesResponse = record {
  start = λ sent status headers fresh. ground (arith, fresh);
  body = λ sent status headers text fresh. refl;
}

limited-IsPrintable : IsPrintable errors limited
unfolding resilience_kit.Exceptions.error_code
limited-IsPrintable = record {
  kit = ("RATE_LIMIT_EXCEEDED", refl);
  limit = ("RATE_LIMIT_EXCEEDED", refl);
  internal = ("INTERNAL_ERROR", refl);
}

stack_answers_example :
    (headers : List (String × String)) × (body : String) × (log_exceptions errors
        (rate_limit_headers errors (raising [] limited))
        request
        0
      ≡ (0, [] ++ response_start (http_status_for limited) headers ∷ response_body body ∷ [], none))
unfolding issubclass
stack_answers_example =
    stack_answers errors (raising [] limited) request 0 0 [] limited errors-TakesResponse
      limited-IsPrintable refl refl refl refl
