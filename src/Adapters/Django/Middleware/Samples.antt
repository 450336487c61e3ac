-- ===== src/Adapters/Django/Middleware/Samples.antt =====
-- A request through the six middleware, and the theorems at it.
use resilience_kit.Prelude.{
  ℕ, ◌+◌, if◌then◌else◌, String, [], ◌∷◌, Option, none, some, ◌≡◌, refl, str_eq, eq_refl,
}
use resilience_kit.Prelude.Int.{ℤ, pos}
use resilience_kit.Prelude.Dict
use resilience_kit.Prelude.Dict.{Dict}
use resilience_kit.Exceptions.{Exn, Outcome, returned, raised, known, rate_limit_error, issubclass}
use resilience_kit.Context.{Context}
use resilience_kit.Middleware.Errors.{Errors, Envelope}
use resilience_kit.Adapters.Envelope.{on_kit_error, handle}
use resilience_kit.Adapters.Django.{
  HeaderMap, HttpRequest, HttpResponse, page, empty, GetResponse, Settings, exceeds, merged_headers,
  process_kit_error,
}
use resilience_kit.Adapters.Django.Middleware.{exception_logging}
use resilience_kit.Adapters.Django.Middleware.Alike.{as_response, adapters_alike}
use resilience_kit.Adapters.Django.Middleware.Identified.{identified}
use resilience_kit.Adapters.Django.Middleware.Stack.{
  IsCovered, stack, stack-oversized, stack-returned,
}

-- Names of headers that are spelt alike.
abbrev header_map : HeaderMap (Dict String)
header_map = record {
  get = Dict.get;
  put = Dict.put;
  same = str_eq;
  same_self = eq_refl;
  get_put = λ h name other value. Dict.get-put h name other value;
}

abbrev text_of : ℕ → String
text_of n = "number"

abbrev dumps : Envelope → Outcome String
dumps e = returned ""

abbrev errors : Errors
errors = record {
  own_code = λ n. none;
  message = λ e. "told";
  details = λ e. ("field", "name") ∷ [];
  limit_of =
      λ e. record { limit = 2; remaining = 0; reset_at = 60; retry_after = 1500; scope = none };
  text_of = text_of;
  second = 1000;
  lower = λ s. s;
  dumps = dumps;
  refuses = λ sent frame. none;
}

abbrev settings : Settings
settings = record {
  req_header = "X-Request-Id";
  corr_header = "X-Correlation-Id";
  max_bytes = 10;
  security_headers =
      merged_headers (("X-Frame-Options", "DENY") ∷ ("Referrer-Policy", "no-referrer") ∷ []) [] [];
  allow_origins = "*" ∷ [];
  prefixes = "/api" ∷ [];
  allow_methods = "GET";
  allow_headers = "Accept";
}

abbrev json : Dict String
json = ("Content-Type", "application/json") ∷ []

-- Lengths by their texts.
abbrev int : String → Option ℤ
int s = if str_eq s "11" then some (pos 11) else none

-- Ids are drawn by number.
abbrev new_request_id : ℕ → ℕ × String
new_request_id n = (n + 1, "fresh")

abbrev large : HttpRequest (Dict String)
large = record { path = "/api/x"; headers = ("Content-Length", "11") ∷ [] }

abbrev small : HttpRequest (Dict String)
small = record { path = "/api/x"; headers = ("X-Request-Id", "abc") ∷ [] }

abbrev outside : Context
outside = record { request_id = none; correlation_id = none }

abbrev view : GetResponse (Dict String) ℕ
view request (c, n) =
    ((c, n + 10), returned (record { status = 200; content = page "ok"; headers = [] }))

abbrev limited : Exn
limited = record { cls = known rate_limit_error; payload = 0 }

abbrev failing : GetResponse (Dict String) ℕ
failing request st = (st, raised limited)

-- The refusal of a large request carries no id.
large_refused :
    stack header_map errors settings json [] int new_request_id view large (outside, 0) ≡ (
      (outside, 0),
      returned (record {
        status = 413;
        content = empty;
        headers =
            ("Access-Control-Allow-Methods", "GET")
            ∷ ("Access-Control-Allow-Headers", "Accept")
            ∷ ("X-Frame-Options", "DENY")
            ∷ ("Referrer-Policy", "no-referrer")
            ∷ [];
      }),
    )
unfolding stack Dict.get Dict.put Dict.update
large_refused = refl

adapters_alike_example :
    (exception_logging header_map errors json failing small (outside, 0) ≡ (
      (outside, 0),
      returned (as_response header_map errors json (on_kit_error errors none limited)),
    ))
    × (process_kit_error header_map errors json limited
        ≡ some (as_response header_map errors json (on_kit_error errors none limited)))
    × (handle errors none (λ a. a.1) (λ e. none) limited
        ≡ some (on_kit_error errors none limited).1)
unfolding issubclass
adapters_alike_example =
    adapters_alike header_map errors json failing small (outside, 0) (outside, 0) limited none
      (λ a. a.1) (λ e. none) refl refl

stack-oversized_example :
    (r : HttpResponse (Dict String)) × (stack header_map errors settings json [] int new_request_id
        view large
        (outside, 0)
      ≡ ((outside, 0), returned r))
    × (r.status ≡ 413)
    × IsCovered header_map settings.security_headers r.headers
unfolding exceeds Dict.get
stack-oversized_example =
    stack-oversized header_map errors settings json [] int new_request_id view large (outside, 0)
      refl

stack-returned_example :
    (r : HttpResponse (Dict String)) × (stack header_map errors settings json [] int new_request_id
        view small
        (outside, 0)
      ≡ ((outside, 10), returned r))
    × (r.status ≡ 200)
    × (r.content ≡ page "ok")
    × IsCovered header_map settings.security_headers r.headers
unfolding exceeds Dict.get
stack-returned_example =
    stack-returned header_map errors settings json [] int new_request_id view small outside
      (identified header_map settings new_request_id small 0).0 0 10
      (record { status = 200; content = page "ok"; headers = [] }) refl refl
