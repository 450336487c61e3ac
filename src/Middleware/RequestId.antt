-- ===== src/Middleware/RequestId.antt =====
-- middleware/request_id.py and middleware/security_headers.py.
--
-- Both append headers to what the application sends. `str.lower` and the names' encodings are left to
-- an argument; `new_request_id` moves the state.
pub mod Tagged
mod Samples
use resilience_kit.Prelude.{
  String, List, [], ◌∷◌, ◌++◌, map, Option, none, some, is_empty, str_eq, if◌then◌else◌,
}
use resilience_kit.Prelude.Dict
use resilience_kit.Prelude.Dict.{Dict}
use resilience_kit.Exceptions.{Exn}
use resilience_kit.Context.{Context, bind}
use resilience_kit.Middleware.Asgi.{Scope, Frame, response_start, response_body}
use resilience_kit.Middleware.Errors.{App}

-- `send_with_headers`
abbrev pub with_headers : List (String × String) → Frame → Frame
with_headers extra (response_start status headers) = response_start status (headers ++ extra)
with_headers extra (response_body body) = response_body body

module _ (lower : String → String) where
  abbrev pub headers_from : List (String × String) → Dict String → Dict String
  headers_from [] out = out
  headers_from ((raw_name, raw_value) ∷ headers) out =
      headers_from headers (Dict.put out (lower raw_name) raw_value)

  -- `_headers_dict`
  unfoldable pub headers_dict : Scope → Dict String
  headers_dict scope = headers_from scope.headers []

-- `a or b`, where `b` moves the state.
abbrev pub or_new : {S : Type 0} → (S → S × String) → Option String → S → S × String
or_new fresh none s = fresh s
or_new fresh (some a) s = if is_empty a then fresh s else (s, a)

abbrev pub or_same : Option String → String → String
or_same none b = b
or_same (some a) b = if is_empty a then b else a

-- What an application does in the block.
abbrev pub ended :
    {S : Type 0}
    → App (Context × S)
    → Scope
    → Context × S
    → (Context × S) × (List Frame × Option Exn)
ended app scope st = let (st', frames, out) = app scope st in (st', (frames, out))

module _ {S : Type 0} (lower : String → String) (header correlation_header : String)
    (new_request_id : S → S × String) where
  -- The two ids of a request.
  unfoldable pub ids_of : Scope → S → S × String × String
  unfolding headers_dict
  ids_of scope s =
      let headers = headers_dict lower scope in
      let (s', rid) = or_new new_request_id (Dict.get headers (lower header)) s in
      (s', rid, or_same (Dict.get headers (lower correlation_header)) rid)

  -- `RequestIdMiddleware.__call__`
  unfoldable pub request_id : App (Context × S) → App (Context × S)
  unfolding ids_of bind
  request_id app scope (c, s) =
      let (s', rid, cid) = ids_of scope s in
      let (st, sent) = bind (some rid) (some cid) (ended app scope) (c, s') in
      let extra = (lower header, rid) ∷ (lower correlation_header, cid) ∷ [] in
      let unchanged = app scope (c, s) in
      if str_eq scope.type_of "http"
      then (st, map (with_headers extra) sent.0, sent.1)
      else unchanged

abbrev pub default_headers : Dict String
default_headers =
    ("X-Content-Type-Options", "nosniff")
    ∷ ("X-Frame-Options", "DENY")
    ∷ ("Referrer-Policy", "strict-origin-when-cross-origin")
    ∷ ("Permissions-Policy", "geolocation=(), microphone=(), camera=()")
    ∷ ("Strict-Transport-Security", "max-age=31536000; includeSubDomains")
    ∷ []

-- The headers of `SecurityHeadersMiddleware.__init__`; none is the same as an empty mapping.
abbrev pub security_headers_of :
    (String → String) → Dict String → Dict String → List (String × String)
security_headers_of lower overrides extra =
    map (λ h. (lower h.0, h.1)) (Dict.update (Dict.update default_headers overrides) extra)

-- `SecurityHeadersMiddleware.__call__`
unfoldable pub secure : {S : Type 0} → List (String × String) → App S → App S
secure headers app scope s =
    let (s', frames, out) = app scope s in
    if str_eq scope.type_of "http"
    then (s', map (with_headers headers) frames, out)
    else (s', frames, out)
