-- ===== src/Middleware/Errors.antt =====
-- middleware/exception_logging.py and middleware/rate_limit_headers.py.
--
-- An application moves a state `S`, and the server has taken some frames of it when it raises, if it
-- does. What an exception carries beside its class, `json.dumps`, and which frames the server refuses,
-- are arguments. Log lines are left out.
pub mod Answered
mod Samples
use resilience_kit.Prelude.{
  ℕ, String, Bool, List, [], ◌∷◌, ◌++◌, Option, none, some, map, str_eq, if◌then◌else◌,
}
use resilience_kit.Prelude.Dict.{Dict}
use resilience_kit.Exceptions.{
  Exn, Outcome, returned, raised, known, exception, resilience_kit_error, rate_limit_error,
  isinstance, error_code, http_status_for,
}
use resilience_kit.Exceptions.RateLimit.{RateLimit, response_headers}
use resilience_kit.Middleware.Asgi.{Scope, Frame, response_start, response_body}

-- The body of an answer.
pub data Envelope : Type 0 where
  kit_error : String → String → Dict String → Envelope
  limit_error : String → Dict String → Envelope
  internal_error : Envelope

pub record Errors : Type 0 where
  -- the codes of derived classes
  pub own_code : ℕ → Option String
  pub message : Exn → String
  pub details : Exn → Dict String
  pub limit_of : Exn → RateLimit
  pub text_of : ℕ → String
  pub second : ℕ
  pub lower : String → String
  -- `json.dumps` raises where a value is none of JSON
  pub dumps : Envelope → Outcome String
  -- what the server's `send` raises on a frame, after those that it has taken
  pub refuses : List Frame → Frame → Option Exn

abbrev pub App : Type 0 → Type 0
App S = Scope → S → S × List Frame × Option Exn

abbrev pub json : String × String
json = ("content-type", "application/json")

abbrev pub answered : {S : Type 0} → S → List Frame × Option Exn → S × List Frame × Option Exn
answered s (frames, r) = (s, frames, r)

module _ (x : Errors) where
  abbrev pub kit_body : Exn → Outcome String
  kit_body e = x.dumps (kit_error (error_code x.own_code e.cls) (x.message e) (x.details e))

  abbrev pub limit_body : Exn → Outcome String
  limit_body e = x.dumps (limit_error (error_code x.own_code e.cls) (x.details e))

  abbrev pub limit_headers : Exn → List (String × String)
  limit_headers e =
      json ∷ map (λ h. (x.lower h.0, h.1)) (response_headers x.text_of x.second (x.limit_of e))

  -- The two calls of `send` that end each of the three responders, after the frames that the server
  -- has taken: those that it has then, and the exception that goes on.
  unfoldable pub send_both : Frame → Frame → List Frame → List Frame × Option Exn
  send_both start body sent = elim (x.refuses sent start) [
    | some e ↦ (sent, some e)
    | none ↦ elim (x.refuses (sent ++ start ∷ []) body) [
      | some e ↦ (sent ++ start ∷ [], some e)
      | none ↦ (sent ++ start ∷ body ∷ [], none)
    ]
  ]

  unfoldable pub respond_kit_error : Exn → List Frame → List Frame × Option Exn
  unfolding send_both
  respond_kit_error e sent = elim (kit_body e) [
    | raised e' ↦ (sent, some e')
    | returned body ↦
        send_both (response_start (http_status_for e) (json ∷ [])) (response_body body) sent
  ]

  unfoldable pub respond_generic_500 : List Frame → List Frame × Option Exn
  unfolding send_both
  respond_generic_500 sent = elim (x.dumps internal_error) [
    | raised e' ↦ (sent, some e')
    | returned body ↦ send_both (response_start 500 (json ∷ [])) (response_body body) sent
  ]

  unfoldable pub respond_429 : Exn → List Frame → List Frame × Option Exn
  unfolding send_both
  respond_429 e sent = elim (limit_body e) [
    | raised e' ↦ (sent, some e')
    | returned body ↦ send_both (response_start 429 (limit_headers e)) (response_body body) sent
  ]

  unfoldable pub log_exceptions : {S : Type 0} → App S → App S
  unfolding respond_kit_error respond_generic_500
  log_exceptions app scope s =
      let (s', frames, r) = app scope s in
      if str_eq scope.type_of "http"
      then (elim r [
        | none ↦ (s', frames, none)
        | some e ↦
            if isinstance e (known resilience_kit_error)
            then answered s' (respond_kit_error e frames)
            else if isinstance e (known exception)
            then answered s' (respond_generic_500 frames)
            else (s', frames, some e)
      ])
      else (s', frames, r)

  unfoldable pub rate_limit_headers : {S : Type 0} → App S → App S
  unfolding respond_429
  rate_limit_headers app scope s =
      let (s', frames, r) = app scope s in
      if str_eq scope.type_of "http"
      then (elim r [
        | none ↦ (s', frames, none)
        | some e ↦
            if isinstance e (known rate_limit_error)
            then answered s' (respond_429 e frames)
            else (s', frames, some e)
      ])
      else (s', frames, r)
