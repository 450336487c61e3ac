-- ===== src/Adapters/Django/Middleware/Stack.antt =====
-- The six middleware in the order that the module recommends.
use resilience_kit.Prelude.{
  String, Bool, true, false, [], ◌∷◌, Option, none, some, ◌≡◌, refl, arith, if◌then◌else◌,
}
use resilience_kit.Prelude.Int.{ℤ}
use resilience_kit.Prelude.Dict.{Dict}
use resilience_kit.Exceptions.{returned}
use resilience_kit.Context.{Context}
use resilience_kit.Middleware.Errors.{Errors}
use resilience_kit.Adapters.Django.{
  HeaderMap, HttpRequest, HttpResponse, empty, GetResponse, Settings, or_fresh, exceeds, setdefault,
  apply_security, apply_cors, opted_in,
}
use resilience_kit.Adapters.Django.Middleware.Identified.{identified}
use resilience_kit.Adapters.Django.Middleware.{
  given_or_new, request_ids, body_limit, selective_cors, rate_limit_headers, security_headers,
  exception_logging,
}

abbrev is_some : {A : Type 0} → Option A → Bool
is_some none = false
is_some (some a) = true

module _ {H : Type 0} (m : HeaderMap H) where
  -- Every name of the dictionary is among the headers.
  abbrev pub IsCovered : Dict String → H → Type 0
  IsCovered [] h = Unit
  IsCovered ((name, value) ∷ rest) h = (is_some (m.get h name) ≡ true) × IsCovered rest h

  setdefault_keeps :
      (h : H) (name other value : String)
      → is_some (m.get h other) ≡ true
      → is_some (m.get (setdefault m h name value) other) ≡ true
  unfolding setdefault
  setdefault_keeps h name other value k = ground (arith, k, m.get_put h name other value)

  apply_security_keeps :
      (rest : Dict String) (h : H) (other : String)
      → is_some (m.get h other) ≡ true
      → is_some (m.get (apply_security m rest h) other) ≡ true
  unfolding apply_security
  apply_security_keeps [] h other k = k
  apply_security_keeps ((name, value) ∷ rest) h other k =
      apply_security_keeps rest (setdefault m h name value) other
        (setdefault_keeps h name other value k)

  setdefault_has :
      (h : H) (name value : String) → is_some (m.get (setdefault m h name value) name) ≡ true
  unfolding setdefault
  setdefault_has h name value = ground (arith, m.get_put h name name value, m.same_self name)

  apply_security-IsCovered : (rest : Dict String) (h : H) → IsCovered rest (apply_security m rest h)
  unfolding apply_security
  apply_security-IsCovered [] h = tt
  apply_security-IsCovered ((name, value) ∷ rest) h = (
    apply_security_keeps rest (setdefault m h name value) name (setdefault_has h name value),
    apply_security-IsCovered rest (setdefault m h name value),
  )

  module _ {S : Type 0} (x : Errors) (c : Settings) (json no_headers : H) (int : String → Option ℤ)
      (new_request_id : S → S × String) where
    -- The recommended order, outermost first.
    unfoldable pub stack : GetResponse H S → GetResponse H S
    unfolding exception_logging security_headers rate_limit_headers selective_cors body_limit
        request_ids
    stack view = exception_logging m x json (
        security_headers m c (
          rate_limit_headers m x json (
            selective_cors m c
              (body_limit m c int no_headers (request_ids m c new_request_id view)))))

    -- A request whose Content-Length is above the maximum is answered with 413 without its view
    -- being run or an id being drawn, and the answer has every security header.
    pub stack-oversized :
        (view : GetResponse H S) (request : HttpRequest H) (st : Context × S)
        → exceeds m c int request ≡ true
        → (r : HttpResponse H) × (stack view request st ≡ (st, returned r))
          × (r.status ≡ 413)
          × IsCovered c.security_headers r.headers
    unfolding stack exception_logging security_headers rate_limit_headers selective_cors body_limit
    stack-oversized view request st above =
        let h = if opted_in c request then apply_cors m c request no_headers else no_headers in
        (
          record { status = 413; content = empty; headers = apply_security m c.security_headers h },
          ground (arith, above),
          refl,
          apply_security-IsCovered c.security_headers h,
        )

    -- Where the request is not above the maximum, a view that returns runs with the ids of the request,
    -- and keeps its status and its content through the six middleware; the variables are as before,
    -- and every security header is there.
    pub stack-returned :
        (view : GetResponse H S) (request : HttpRequest H) (before after : Context) (s s' : S)
        (response : HttpResponse H)
        → exceeds m c int request ≡ false
        → view request (identified m c new_request_id request s) ≡ ((after, s'), returned response)
        → (r : HttpResponse H) × (stack view request (before, s) ≡ ((before, s'), returned r))
          × (r.status ≡ response.status)
          × (r.content ≡ response.content)
          × IsCovered c.security_headers r.headers
    unfolding stack exception_logging security_headers rate_limit_headers selective_cors body_limit
        request_ids
    stack-returned view request before after s s' response below ends =
        let rid = (given_or_new new_request_id (m.get request.headers c.req_header) s).1 in
        let cid = or_fresh (m.get request.headers c.corr_header) rid in
        let tagged = m.put (m.put response.headers c.req_header rid) c.corr_header cid in
        let h = if opted_in c request then apply_cors m c request tagged else tagged in
        (
          record response { headers = apply_security m c.security_headers h },
          ground (arith, below, ends),
          refl,
          refl,
          apply_security-IsCovered c.security_headers h,
        )
