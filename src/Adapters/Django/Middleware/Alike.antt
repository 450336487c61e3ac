-- ===== src/Adapters/Django/Middleware/Alike.antt =====
-- How the adapters answer one and the same exception.
use resilience_kit.Prelude.{String, true, Option, some, ◌≡◌, arith, inl, inr, Bool-cases}
use resilience_kit.Prelude.Dict
use resilience_kit.Exceptions.{
  Exn, returned, raised, known, resilience_kit_error, rate_limit_error, isinstance,
}
use resilience_kit.Exceptions.RateLimit.{response_headers}
use resilience_kit.Context.{Context}
use resilience_kit.Middleware.Errors.{Errors}
use resilience_kit.Middleware.Errors.Answered.{rate_limited}
use resilience_kit.Adapters.Envelope.{Answer, from_exception, on_kit_error, handle}
use resilience_kit.Adapters.Django.{
  HeaderMap, HttpRequest, HttpResponse, envelope, GetResponse, put_all, rate_limit_response,
  kit_error_response, process_rate_limit, process_kit_error,
}
use resilience_kit.Adapters.Django.Middleware.{rate_limit_headers, exception_logging}

module _ {H : Type 0} (m : HeaderMap H) (x : Errors) (json : H) where
  -- An answer, as a response of Django.
  abbrev pub as_response : Answer → HttpResponse H
  as_response a = record { status = a.1; content = envelope a.0; headers = put_all m json a.2 }

  kit_error_response-eq :
      (request_id : Option String) (e : Exn)
      → kit_error_response m x json e ≡ as_response (on_kit_error x request_id e)
  unfolding kit_error_response on_kit_error from_exception put_all Dict.update Dict.put
      response_headers
  kit_error_response-eq request_id e = elim (Bool-cases (isinstance e (known rate_limit_error))) [
    | inl k ↦ ground (arith, k)
    | inr k ↦ ground (arith, k)
  ]

  rate_limit_response-eq :
      (e : Exn)
      → isinstance e (known rate_limit_error) ≡ true
      → rate_limit_response m x json e ≡ kit_error_response m x json e
  unfolding kit_error_response rate_limit_response
  rate_limit_response-eq e k = ground (arith, k, (rate_limited e.cls e.payload k).1)

  -- An exception of the kit that a view raises is answered alike everywhere: the middleware of Django
  -- that logs exceptions, as a caller and by its hook, sends the status, body and headers that the
  -- handlers of FastAPI and of the rest framework send.
  pub adapters_alike :
      {S R : Type 0} (view : GetResponse H S) (request : HttpRequest H) (st st' : Context × S)
      (e : Exn) (request_id : Option String) (response : Answer → R) (other : Exn → Option R)
      → view request st ≡ (st', raised e)
      → isinstance e (known resilience_kit_error) ≡ true
      → (exception_logging m x json view request st
          ≡ (st', returned (as_response (on_kit_error x request_id e))))
        × (process_kit_error m x json e ≡ some (as_response (on_kit_error x request_id e)))
        × (handle x request_id response other e ≡ some (response (on_kit_error x request_id e)))
  unfolding exception_logging process_kit_error handle on_kit_error
  adapters_alike view request st st' e request_id response other ends k =
      let same = kit_error_response-eq request_id e in
      (ground (arith, ends, k, same), ground (arith, k, same), ground (arith, k))

  -- A `RateLimitError` is answered alike whichever of the two middleware of Django gets it first.
  limits_alike :
      {S : Type 0} (view : GetResponse H S) (request : HttpRequest H) (st st' : Context × S)
      (e : Exn)
      → view request st ≡ (st', raised e)
      → isinstance e (known rate_limit_error) ≡ true
      → isinstance e (known resilience_kit_error) ≡ true
      → (rate_limit_headers m x json view request st ≡ exception_logging m x json view request st)
        × (process_rate_limit m x json e ≡ process_kit_error m x json e)
  unfolding exception_logging process_kit_error rate_limit_headers process_rate_limit
  limits_alike view request st st' e ends k kit =
      let same = rate_limit_response-eq e k in
      (ground (arith, ends, k, kit, same), ground (arith, k, kit, same))
