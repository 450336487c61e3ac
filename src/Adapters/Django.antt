-- ===== src/Adapters/Django.antt =====
-- adapters/django/middleware.py: the six middleware, as functions from a handler to a handler.
--
-- A handler moves the context variables and a state `S`, and returns a response or raises. Django's
-- maps of headers are an argument, with its documented law: names are compared up to case. The settings
-- are what `__init__` reads. Log lines are left out.
pub mod Middleware
use text.Mathlib.Text.{starts_with}
use resilience_kit.Prelude.{
  ℕ, String, Bool, true, false, List, [], ◌∷◌, Option, none, some, any, is_empty, str_in, ◌&&◌, ◌≡◌,
  if◌then◌else◌,
}
use resilience_kit.Prelude.Int.{ℤ}
use resilience_kit.Prelude.Dict
use resilience_kit.Prelude.Dict.{Dict}
use resilience_kit.Exceptions.{
  Exn, Outcome, returned, raised, known, resilience_kit_error, rate_limit_error, isinstance,
  http_status_for,
}
use resilience_kit.Exceptions.RateLimit.{response_headers}
use resilience_kit.Context.{Context}
use resilience_kit.Middleware.BodyLimit.{is_above}
use resilience_kit.Middleware.Errors.{Errors}
use resilience_kit.Adapters.Envelope.{Value, canonical}

-- `HttpHeaders`, and the headers of a response.
pub record HeaderMap (H : Type 0) : Type 0 where
  pub get : H → String → Option String
  pub put : H → String → String → H
  pub same : String → String → Bool
  pub same_self : (name : String) → same name name ≡ true
  pub get_put :
      (h : H) (name other value : String)
      → get (put h name value) other ≡ (if same name other then some value else get h other)

pub data Content : Type 0 where
  empty : Content
  page : String → Content
  envelope : Dict Value → Content

pub record HttpResponse (H : Type 0) : Type 0 where
  pub status : ℕ
  pub content : Content
  pub headers : H

pub record HttpRequest (H : Type 0) : Type 0 where
  pub path : String
  pub headers : H

abbrev pub GetResponse : Type 0 → Type 0 → Type 0
GetResponse H S = HttpRequest H → Context × S → (Context × S) × Outcome (HttpResponse H)

pub record Settings : Type 0 where
  pub req_header : String
  pub corr_header : String
  pub max_bytes : ℕ
  pub security_headers : Dict String
  pub allow_origins : List String
  pub prefixes : List String
  pub allow_methods : String
  pub allow_headers : String

-- `a or b`
abbrev pub or_fresh : Option String → String → String
or_fresh none b = b
or_fresh (some a) b = if is_empty a then b else a

-- `merged` of `SecurityHeadersMiddleware.__init__`
abbrev pub merged_headers : Dict String → Dict String → Dict String → Dict String
merged_headers defaults overrides extras = Dict.update (Dict.update defaults overrides) extras

-- `SelectiveCorsMiddleware._opted_in`
abbrev pub opted_in : {H : Type 0} → Settings → HttpRequest H → Bool
opted_in c request = elim c.prefixes [
  | [] ↦ false
  | p ∷ ps ↦ elim c.allow_origins [
    | [] ↦ false
    | o ∷ os ↦ any (λ prefix. starts_with request.path prefix) c.prefixes
  ]
]

abbrev pub is_allowed : Settings → Option String → Bool
is_allowed c none = false
is_allowed c (some origin) =
    if is_empty origin
    then false
    else if str_in "*" c.allow_origins
    then true
    else str_in origin c.allow_origins

module _ {H : Type 0} (m : HeaderMap H) where
  -- `BodyLimitMiddleware`; `int` is Python's, none for a ValueError.
  unfoldable pub exceeds : Settings → (String → Option ℤ) → HttpRequest H → Bool
  exceeds c int request = elim (m.get request.headers "Content-Length") [
    | none ↦ false
    | some length ↦ is_above (int length) c.max_bytes
  ]

  unfoldable pub setdefault : H → String → String → H
  setdefault h name value = elim (m.get h name) [ none ↦ m.put h name value | some _ ↦ h ]

  -- `SecurityHeadersMiddleware._apply`
  unfoldable pub apply_security : Dict String → H → H
  unfolding setdefault
  apply_security [] h = h
  apply_security ((name, value) ∷ rest) h = apply_security rest (setdefault h name value)

  -- `SelectiveCorsMiddleware._apply`
  unfoldable pub apply_cors : Settings → HttpRequest H → H → H
  apply_cors c request h =
      let origin = m.get request.headers "Origin" in
      let named =
        if is_allowed c origin
        then m.put h "Access-Control-Allow-Origin" (or_fresh origin "")
        else h in
      m.put (m.put named "Access-Control-Allow-Methods" c.allow_methods)
        "Access-Control-Allow-Headers" c.allow_headers

  -- `response.headers[name] = value` for each.
  unfoldable pub put_all : H → Dict String → H
  put_all h [] = h
  put_all h ((name, value) ∷ rest) = put_all (m.put h name value) rest

  module _ (x : Errors) (json : H) where
    -- `_rate_limit_response`; `json` is the headers of a JsonResponse.
    unfoldable pub rate_limit_response : Exn → HttpResponse H
    unfolding put_all
    rate_limit_response e = record {
      status = 429;
      content = envelope (canonical x none e);
      headers = put_all json (response_headers x.text_of x.second (x.limit_of e));
    }

    -- `_kit_error_response`
    unfoldable pub kit_error_response : Exn → HttpResponse H
    unfolding put_all
    kit_error_response e =
        let h =
          if isinstance e (known rate_limit_error)
          then put_all json (response_headers x.text_of x.second (x.limit_of e))
          else json in
        record { status = http_status_for e; content = envelope (canonical x none e); headers = h }

    -- `process_exception` of `RateLimitHeadersMiddleware`
    unfoldable pub process_rate_limit : Exn → Option (HttpResponse H)
    unfolding rate_limit_response
    process_rate_limit e =
        if isinstance e (known rate_limit_error) then some (rate_limit_response e) else none

    -- `process_exception` of `ExceptionLoggingMiddleware`
    unfoldable pub process_kit_error : Exn → Option (HttpResponse H)
    unfolding kit_error_response
    process_kit_error e =
        if isinstance e (known resilience_kit_error) then some (kit_error_response e) else none
