-- ===== src/Adapters/Django/Middleware.antt =====
-- The six classes of adapters/django/middleware.py, by their `__call__`.
pub mod Alike
pub mod Identified
pub mod Stack
mod Samples
use resilience_kit.Prelude.{String, Option, none, some, is_empty, if◌then◌else◌}
use resilience_kit.Prelude.Int.{ℤ}
use resilience_kit.Exceptions.{
  Exn, Outcome, returned, raised, known, resilience_kit_error, rate_limit_error, isinstance,
}
use resilience_kit.Context.{Context}
use resilience_kit.Middleware.Errors.{Errors}
use resilience_kit.Adapters.Django.{
  HeaderMap, HttpRequest, HttpResponse, empty, GetResponse, Settings, or_fresh, exceeds,
  apply_security, opted_in, apply_cors, rate_limit_response, kit_error_response,
}

-- `a or new_request_id()`
abbrev pub given_or_new : {S : Type 0} → (S → S × String) → Option String → S → S × String
given_or_new new_request_id none s = new_request_id s
given_or_new new_request_id (some a) s = if is_empty a then new_request_id s else (s, a)

-- What a middleware does to a response that it is handed back.
abbrev pub on_returned :
    {H S : Type 0}
    → (HttpResponse H → HttpResponse H)
    → (Context × S) × Outcome (HttpResponse H)
    → (Context × S) × Outcome (HttpResponse H)
on_returned f (st, raised e) = (st, raised e)
on_returned f (st, returned response) = (st, returned (f response))

module _ {H S : Type 0} (m : HeaderMap H) where
  -- `RequestIdMiddleware.__call__`; `new_request_id` moves the state.
  unfoldable pub request_ids : Settings → (S → S × String) → GetResponse H S → GetResponse H S
  request_ids c new_request_id get_response request (before, s) =
      let incoming = m.get request.headers c.req_header in
      let (s₁, rid) = given_or_new new_request_id incoming s in
      let cid = or_fresh (m.get request.headers c.corr_header) rid in
      let inside : Context = record { request_id = some rid; correlation_id = some cid } in
      let ((after, s₂), out) = get_response request (inside, s₁) in
      (
        (before, s₂),
        elim out [
          | raised e ↦ raised e
          | returned response ↦ returned (record response {
            headers = m.put (m.put response.headers c.req_header rid) c.corr_header cid;
          })
        ],
      )

  unfoldable pub body_limit : Settings → (String → Option ℤ) → H → GetResponse H S → GetResponse H S
  unfolding exceeds
  body_limit c int no_headers get_response request st =
      let answer = get_response request st in
      if exceeds m c int request
      then (st, returned (record { status = 413; content = empty; headers = no_headers }))
      else answer

  unfoldable pub security_headers : Settings → GetResponse H S → GetResponse H S
  unfolding apply_security
  security_headers c get_response request st =
      on_returned
        (λ (r : HttpResponse H). record r {
          headers = apply_security m c.security_headers r.headers;
        })
        (get_response request st)

  unfoldable pub selective_cors : Settings → GetResponse H S → GetResponse H S
  unfolding apply_cors
  selective_cors c get_response request st =
      on_returned
        (λ (r : HttpResponse H).
          if opted_in c request then record r { headers = apply_cors m c request r.headers } else r)
        (get_response request st)

  module _ (x : Errors) (json : H) where
    unfoldable pub rate_limit_headers : GetResponse H S → GetResponse H S
    unfolding rate_limit_response
    rate_limit_headers get_response request st =
        let (st', out) = get_response request st in
        (
          st',
          elim out [
            | returned r ↦ returned r
            | raised e ↦
                if isinstance e (known rate_limit_error)
                then returned (rate_limit_response m x json e)
                else raised e
          ],
        )

    unfoldable pub exception_logging : GetResponse H S → GetResponse H S
    unfolding kit_error_response
    exception_logging get_response request st =
        let (st', out) = get_response request st in
        (
          st',
          elim out [
            | returned r ↦ returned r
            | raised e ↦
                if isinstance e (known resilience_kit_error)
                then returned (kit_error_response m x json e)
                else raised e
          ],
        )
