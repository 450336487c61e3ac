-- ===== src/Middleware/RequestId/Samples.antt =====
-- A request without an id, and the theorem at it.
use resilience_kit.Prelude.{ℕ, ◌+◌, String, List, [], ◌∷◌, none, some, ◌≡◌, refl}
use resilience_kit.Prelude.Dict
use resilience_kit.Exceptions.{Exn, known, value_error}
use resilience_kit.Context.{Context}
use resilience_kit.Middleware.Asgi.{Scope, Frame, response_start, response_body}
use resilience_kit.Middleware.Errors.{App}
use resilience_kit.Middleware.RequestId.{ids_of, headers_dict, request_id, secure}
use resilience_kit.Middleware.RequestId.Tagged.{IsCarried, request_id-IsCarried}

abbrev lower : String → String
lower s = s

abbrev new_request_id : ℕ → ℕ × String
new_request_id n = (n + 1, "fresh")

abbrev scope : Scope
scope = record {
  type_of = "http";
  method = some "GET";
  path = "/";
  headers = ("x-correlation-id", "job-1") ∷ [];
}

abbrev outside : Context
outside = record { request_id = none; correlation_id = some "outer" }

abbrev failure : Exn
failure = record { cls = known value_error; payload = 0 }

-- A response is started, and then the application raises.
abbrev app : App (Context × ℕ)
app _ (c, n) = ((c, n + 10), response_start 200 [] ∷ response_body "ok" ∷ [], some failure)

abbrev inside : Context
inside = record { request_id = some "fresh"; correlation_id = some "job-1" }

secured : secure (("x-frame-options", "DENY") ∷ []) app scope (outside, 0) ≡ (
  (outside, 10),
  response_start 200 (("x-frame-options", "DENY") ∷ []) ∷ response_body "ok" ∷ [],
  some failure,
)
unfolding secure
secured = refl

request_id-IsCarried_example :
    (sent : List Frame) × (request_id lower "x-request-id" "x-correlation-id" new_request_id app
        scope
        (outside, 0)
      ≡ ((outside, 11), sent, some failure))
    × IsCarried "x-request-id" "fresh" sent
    × IsCarried "x-correlation-id" "job-1" sent
unfolding ids_of headers_dict Dict.get Dict.put
request_id-IsCarried_example =
    request_id-IsCarried lower "x-request-id" "x-correlation-id" new_request_id app scope outside
      inside 0 1 11 "fresh" "job-1" (response_start 200 [] ∷ response_body "ok" ∷ []) (some failure)
      refl refl refl
