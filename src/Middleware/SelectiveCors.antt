-- ===== src/Middleware/SelectiveCors.antt =====
-- middleware/selective_cors.py: `SelectiveCorsMiddleware`.
--
-- The application moves a state `S`, and what it sends is the list of its frames. `str.lower` is an
-- argument.
pub mod Origins
mod Samples
use text.Mathlib.Text.{starts_with}
use resilience_kit.Prelude.{
  ℕ, String, Bool, true, false, ◌&&◌, ◌||◌, not, List, [], ◌∷◌, ◌++◌, Option, none, some, any, map,
  str_eq, str_in, if◌then◌else◌,
}
use resilience_kit.Middleware.Asgi.{Scope, Frame, response_start, response_body}

-- The fields of the object, of which the origins are in lower case and the lists are joined.
pub record Cors : Type 0 where
  pub allow_origins : List String
  pub wildcard : Bool
  pub prefixes : List String
  pub allow_methods : String
  pub allow_headers : String
  pub max_age : String

abbrev pub allow_origin_header : String
allow_origin_header = "access-control-allow-origin"

-- `scope.get("method") == "OPTIONS"`
abbrev pub is_options : Option String → Bool
is_options none = false
is_options (some method) = str_eq method "OPTIONS"

module _ (lower : String → String) where
  unfoldable pub new : List String → List String → String → String → String → Cors
  new allow_origins path_prefixes allow_methods allow_headers max_age = record {
    allow_origins = map lower allow_origins;
    wildcard = str_in "*" (map lower allow_origins);
    prefixes = path_prefixes;
    allow_methods = allow_methods;
    allow_headers = allow_headers;
    max_age = max_age;
  }

  -- `_header`
  unfoldable pub header : List (String × String) → String → Option String
  header [] name = none
  header ((raw_name, raw_value) ∷ headers) name =
      let rest = header headers name in
      if str_eq (lower raw_name) name then some raw_value else rest

  module _ (c : Cors) where
    unfoldable pub matches : String → Bool
    matches path = any (λ p. starts_with path p) c.prefixes

    unfoldable pub is_origin_allowed : Option String → Bool
    is_origin_allowed none = false
    is_origin_allowed (some origin) = c.wildcard || str_in (lower origin) c.allow_origins

    unfoldable pub respond_preflight : Option String → List Frame
    respond_preflight none =
        response_start 403 (("content-type", "text/plain") ∷ [])
        ∷ response_body "CORS origin denied"
        ∷ []
    respond_preflight (some origin) =
        response_start 204 (
          (allow_origin_header, origin)
          ∷ ("access-control-allow-methods", c.allow_methods)
          ∷ ("access-control-allow-headers", c.allow_headers)
          ∷ ("access-control-max-age", c.max_age)
          ∷ ("vary", "Origin")
          ∷ [])
        ∷ response_body ""
        ∷ []

    -- `send_with_cors`, for an origin and whether it is allowed.
    unfoldable pub with_cors : Option String → Bool → Frame → Frame
    with_cors (some origin) true (response_start status headers) =
        response_start status (headers ++ (allow_origin_header, origin) ∷ ("vary", "Origin") ∷ [])
    with_cors origin allowed frame = frame

    -- `__call__`
    unfoldable pub call : {S : Type 0} → (Scope → S → S × List Frame) → Scope → S → S × List Frame
    unfolding matches is_origin_allowed header respond_preflight with_cors
    call app scope s =
        if not (str_eq scope.type_of "http") || not (matches scope.path)
        then app scope s
        else (let origin = header scope.headers "origin" in
            let allowed = is_origin_allowed origin in
            if is_options scope.method
            then (s, respond_preflight (if allowed then origin else none))
            else (let (s', frames) = app scope s in (s', map (with_cors origin allowed) frames)))
