-- ===== src/Middleware/Errors/Answered.antt =====
-- What a client gets to see of an exception.
use resilience_kit.Prelude.{
  ℕ, String, Bool, true, false, List, [], ◌∷◌, ◌++◌, none, some, str_eq, ◌≡◌, arith, inl, inr,
  Bool-cases,
}
use resilience_kit.Exceptions.{
  Cls, known, user, Exn, returned, exception, resilience_kit_error, rate_limit_error, isinstance,
  issubclass, http_status_for,
}
use resilience_kit.Middleware.Asgi.{Scope, Frame, response_start, response_body}
use resilience_kit.Middleware.Errors.{
  Errors, App, json, kit_body, limit_body, limit_headers, internal_error, send_both,
  respond_kit_error, respond_generic_500, respond_429, log_exceptions, rate_limit_headers,
}

-- What is no exception of the kit has the status of an internal error.
http_status_for-other :
    (c : Cls) (p : ℕ)
    → issubclass c (known resilience_kit_error) ≡ false
    → http_status_for (record { cls = c; payload = p }) ≡ 500
unfolding http_status_for issubclass
http_status_for-other (known k) p h = ground (arith, h)
http_status_for-other (user n c) p h = http_status_for-other c p h

-- An instance of `RateLimitError`, however derived, is an exception of the kit with status 429.
pub rate_limited :
    (c : Cls) (p : ℕ)
    → issubclass c (known rate_limit_error) ≡ true
    → (issubclass c (known exception) ≡ true)
      × (http_status_for (record { cls = c; payload = p }) ≡ 429)
unfolding http_status_for issubclass
rate_limited (known k) p h = ground (arith, h)
rate_limited (user n c) p h = rate_limited c p h

abbrev pub has_start : List Frame → Bool
has_start [] = false
has_start (response_start status headers ∷ frames) = true
has_start (response_body body ∷ frames) = has_start frames

module _ (x : Errors) where
  -- The server takes the start of a response, if it has taken none, and then a body.
  pub record TakesResponse : Type 0 where
    pub start :
        (sent : List Frame) (status : ℕ) (headers : List (String × String))
        → has_start sent ≡ false
        → x.refuses sent (response_start status headers) ≡ none
    pub body :
        (sent : List Frame) (status : ℕ) (headers : List (String × String)) (text : String)
        → has_start sent ≡ false
        → x.refuses (sent ++ response_start status headers ∷ []) (response_body text) ≡ none

  -- What an exception carries can be printed as JSON.
  pub record IsPrintable (e : Exn) : Type 0 where
    pub kit : (text : String) × (kit_body x e ≡ returned text)
    pub limit : (text : String) × (limit_body x e ≡ returned text)
    pub internal : (text : String) × (x.dumps internal_error ≡ returned text)

  send_both-TakesResponse :
      (takes : TakesResponse) (status : ℕ) (headers : List (String × String)) (text : String)
      (sent : List Frame)
      → has_start sent ≡ false
      → send_both x (response_start status headers) (response_body text) sent
        ≡ (sent ++ response_start status headers ∷ response_body text ∷ [], none)
  unfolding send_both
  send_both-TakesResponse takes status headers text sent fresh =
      ground
        (arith, takes.start sent status headers fresh, takes.body sent status headers text fresh)

  -- A server that refuses a second start raises whatever its `send` does.
  send_both-refused :
      (status : ℕ) (headers : List (String × String)) (text : String) (sent : List Frame) (e : Exn)
      → x.refuses sent (response_start status headers) ≡ some e
      → send_both x (response_start status headers) (response_body text) sent ≡ (sent, some e)
  unfolding send_both
  send_both-refused status headers text sent e refused = ground (arith, refused)

module _ {S : Type 0} (x : Errors) where
  -- What `log_exceptions` sends after an `Exception`.
  log_exceptions-answer :
      (app : App S) (scope : Scope) (s s' : S) (frames : List Frame) (e : Exn)
      → TakesResponse x
      → IsPrintable x e
      → has_start frames ≡ false
      → str_eq scope.type_of "http" ≡ true
      → app scope s ≡ (s', frames, some e)
      → isinstance e (known exception) ≡ true
      → (body : String) × (log_exceptions x app scope s ≡ (
        s',
        frames ++ response_start (http_status_for e) (json ∷ []) ∷ response_body body ∷ [],
        none,
      ))
  unfolding log_exceptions respond_kit_error respond_generic_500
  log_exceptions-answer app scope s s' frames e takes prints fresh http ends is_exception =
      elim (Bool-cases (isinstance e (known resilience_kit_error))) [
        | inl k ↦
            let (text, printed) = prints.kit in
            (
              text,
              ground (
                arith,
                http,
                ends,
                k,
                printed,
                send_both-TakesResponse x takes (http_status_for e) (json ∷ []) text frames fresh,
              ),
            )
        | inr k ↦
            let (text, printed) = prints.internal in
            (
              text,
              ground (
                arith,
                http,
                ends,
                k,
                is_exception,
                printed,
                http_status_for-other e.cls e.payload k,
                send_both-TakesResponse x takes 500 (json ∷ []) text frames fresh,
              ),
            )
      ]

  -- Behind both, an application that raises an `Exception` before it has started a response is answered
  -- with the status of the table and a body, after what it has sent, and the exception goes no
  -- further. What the exception carries can be printed as JSON, and the server takes a first start
  -- and a body after it.
  pub stack_answers :
      (app : App S) (scope : Scope) (s s' : S) (frames : List Frame) (e : Exn)
      → TakesResponse x
      → IsPrintable x e
      → has_start frames ≡ false
      → str_eq scope.type_of "http" ≡ true
      → app scope s ≡ (s', frames, some e)
      → isinstance e (known exception) ≡ true
      → (headers : List (String × String)) × (body : String) × (log_exceptions x
            (rate_limit_headers x app)
            scope
            s
          ≡ (
            s',
            frames ++ response_start (http_status_for e) headers ∷ response_body body ∷ [],
            none,
          ))
  unfolding rate_limit_headers log_exceptions respond_429
  stack_answers app scope s s' frames e takes prints fresh http ends is_exception =
      elim (Bool-cases (isinstance e (known rate_limit_error))) [
        | inl k ↦
            let (text, printed) = prints.limit in
            (
              limit_headers x e,
              text,
              ground (
                arith,
                http,
                ends,
                k,
                printed,
                (rate_limited e.cls e.payload k).1,
                send_both-TakesResponse x takes 429 (limit_headers x e) text frames fresh,
              ),
            )
        | inr k ↦
            let inner : rate_limit_headers x app scope s ≡ (s', frames, some e) =
              ground (arith, http, ends, k) in
            let (body, same) =
              log_exceptions-answer (rate_limit_headers x app) scope s s' frames e takes prints
                fresh http inner is_exception in
            (json ∷ [], body, same)
      ]

  -- The answer to an `Exception` that is none of the kit's tells nothing of it.
  log_exceptions_silent :
      (app app' : App S) (scope : Scope) (s s' : S) (frames : List Frame) (e e' : Exn)
      → str_eq scope.type_of "http" ≡ true
      → app scope s ≡ (s', frames, some e)
      → app' scope s ≡ (s', frames, some e')
      → (isinstance e (known exception) ≡ true)
        × (isinstance e (known resilience_kit_error) ≡ false)
      → (isinstance e' (known exception) ≡ true)
        × (isinstance e' (known resilience_kit_error) ≡ false)
      → log_exceptions x app scope s ≡ log_exceptions x app' scope s
  unfolding log_exceptions
  log_exceptions_silent app app' scope s s' frames e e' http ends ends' h h' =
      ground (arith, http, ends, ends', h.0, h.1, h'.0, h'.1)

  -- After the start of a response that the application has sent, a server that refuses a second
  -- start with some `Exception` raises it through `log_exceptions`, and nothing more is sent.
  log_exceptions-refused :
      (app : App S) (scope : Scope) (s s' : S) (frames : List Frame) (e refusal : Exn)
      → ((status : ℕ) (headers : List (String × String))
          → x.refuses frames (response_start status headers) ≡ some refusal)
      → IsPrintable x e
      → str_eq scope.type_of "http" ≡ true
      → app scope s ≡ (s', frames, some e)
      → isinstance e (known exception) ≡ true
      → log_exceptions x app scope s ≡ (s', frames, some refusal)
  unfolding log_exceptions respond_kit_error respond_generic_500
  log_exceptions-refused app scope s s' frames e refusal refused prints http ends is_exception =
      let (kit, kit_printed) = prints.kit in
      let (internal, printed) = prints.internal in
      ground (
        arith,
        http,
        ends,
        is_exception,
        kit_printed,
        printed,
        send_both-refused x (http_status_for e) (json ∷ []) kit frames refusal
            (refused (http_status_for e) (json ∷ [])),
        send_both-refused x 500 (json ∷ []) internal frames refusal (refused 500 (json ∷ [])),
      )
