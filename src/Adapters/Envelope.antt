-- ===== src/Adapters/Envelope.antt =====
-- adapters/_envelope.py, and the two handlers that answer with it: `install` of
-- adapters/fastapi/exception_handlers.py and `handle` of adapters/django/exception_handler.py.
--
-- What an exception carries beside its class is the `Errors` of Middleware.Errors. A pydantic model is
-- the names of its fields. A value in `details` stands by its text, which is what `str` gives.
pub mod Declared
mod Samples
use resilience_kit.Prelude.{
  ℕ, String, Bool, false, List, [], ◌∷◌, Option, none, some, is_empty, str_in, if◌then◌else◌,
}
use resilience_kit.Prelude.Dict
use resilience_kit.Prelude.Dict.{Dict}
use resilience_kit.Exceptions.{
  Exn, known, resilience_kit_error, rate_limit_error, isinstance, error_code, http_status_for,
}
use resilience_kit.Exceptions.RateLimit.{response_headers}
use resilience_kit.Middleware.Errors.{Errors}

pub data Value : Type 0 where
  string : String → Value
  dict : Dict String → Value
  -- a list of objects with the keys `field` and `message`
  rows : List (String × String) → Value
  optional : Option String → Value
  boolean : Bool → Value

-- Body, status and headers.
abbrev pub Answer : Type 0
Answer = Dict Value × ℕ × Dict String

abbrev pub error_code_aliases : List String
error_code_aliases = "error_code" ∷ "code" ∷ "error" ∷ []

abbrev pub message_aliases : List String
message_aliases = "message" ∷ "detail" ∷ []

unfoldable pub first_match : List String → List String → Option String
first_match [] fields = none
first_match (c ∷ candidates) fields =
    let rest = first_match candidates fields in if str_in c fields then some c else rest

-- `out[field] = value` for each, if there is such a field.
unfoldable pub put_fields : List (Option String × Value) → Dict Value → Dict Value
put_fields [] out = out
put_fields ((none, value) ∷ later) out = put_fields later out
put_fields ((some field, value) ∷ later) out = put_fields later (Dict.put out field value)

abbrev pub field_if : String → List String → Option String
field_if field fields = if str_in field fields then some field else none

module _ (x : Errors) (request_id : Option String) where
  abbrev pub canonical : Exn → Dict Value
  canonical e =
      ("error_code", string (error_code x.own_code e.cls))
      ∷ ("message", string (x.message e))
      ∷ ("details", dict (x.details e))
      ∷ []

  -- `_project_onto_envelope`, of the body of `e`.
  -- What `_project_onto_envelope` writes, in its order: where, if there is such a field, and what.
  abbrev pub projections : Exn → List String → List (Option String × Value)
  projections e fields =
      (first_match error_code_aliases fields, string (error_code x.own_code e.cls))
      ∷ (first_match message_aliases fields, string (x.message e))
      ∷ (if str_in "details" fields
          then (some "details", dict (x.details e))
          else (field_if "errors" fields, rows (x.details e)))
      ∷ (field_if "request_id" fields, optional request_id)
      ∷ (field_if "success" fields, boolean false)
      ∷ []

  unfoldable pub project_onto_envelope : Exn → List String → Dict Value
  unfolding first_match
  project_onto_envelope e fields = put_fields (projections e fields) []

  unfoldable pub from_exception : Exn → Option (List String) → Dict String → Answer
  unfolding project_onto_envelope
  from_exception e envelope_cls extra_headers = (
    elim envelope_cls [ none ↦ canonical e | some fields ↦ project_onto_envelope e fields ],
    http_status_for e,
    if isinstance e (known rate_limit_error)
        then Dict.update extra_headers (response_headers x.text_of x.second (x.limit_of e))
        else extra_headers,
  )

  -- The handler that `install` registers, in FastAPI.
  unfoldable pub on_kit_error : Exn → Answer
  unfolding from_exception
  on_kit_error e = from_exception e none []

  -- `handle`, of the rest framework of Django. Its own handler is an argument.
  unfoldable pub handle : {R : Type 0} → (Answer → R) → (Exn → Option R) → Exn → Option R
  unfolding from_exception
  handle response drf_default_handler e =
      if isinstance e (known resilience_kit_error)
      then some (response (from_exception e none []))
      else drf_default_handler e
