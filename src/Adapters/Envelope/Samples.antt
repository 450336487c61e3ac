-- ===== src/Adapters/Envelope/Samples.antt =====
-- Projections onto a model, and the theorem at one.
use resilience_kit.Prelude.{ℕ, String, false, List, [], ◌∷◌, none, some, ◌≡◌, refl}
use resilience_kit.Prelude.Dict
use resilience_kit.Exceptions.{Exn, Outcome, returned, known, validation_error}
use resilience_kit.Middleware.Errors.{Errors, Envelope}
use resilience_kit.Adapters.Envelope.{string, rows, boolean, from_exception}

abbrev text_of : ℕ → String
text_of n = "number"

abbrev dumps : Envelope → Outcome String
dumps e = returned ""

abbrev errors : Errors
errors = record {
  own_code = λ n. none;
  message = λ e. "told";
  details = λ e. ("name", "missing") ∷ [];
  limit_of =
      λ e. record { limit = 2; remaining = 0; reset_at = 60; retry_after = 1500; scope = none };
  text_of = text_of;
  second = 1000;
  lower = λ s. s;
  dumps = dumps;
  refuses = λ sent frame. none;
}

abbrev bad_input : Exn
bad_input = record { cls = known validation_error; payload = 0 }

abbrev model : List String
model = "success" ∷ "data" ∷ "code" ∷ "errors" ∷ []

projected : from_exception errors none bad_input (some model) [] ≡ (
  ("code", string "VALIDATION_ERROR")
      ∷ ("errors", rows (("name", "missing") ∷ []))
      ∷ ("success", boolean false)
      ∷ [],
  400,
  [],
)
unfolding from_exception resilience_kit.Adapters.Envelope.put_fields
    resilience_kit.Exceptions.http_status_for resilience_kit.Exceptions.issubclass Dict.put
    resilience_kit.Exceptions.error_code
projected = refl
