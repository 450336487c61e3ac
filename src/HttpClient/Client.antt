-- ===== src/HttpClient/Client.antt =====
-- http_client/client.py: `AsyncAPIClient`.
--
-- A `Platform` is what the client is given from outside: the standard library, httpx, the tracer and
-- the audit sink, over the state `T` of all that they touch. `request` runs over a `Process`, in
-- which the registry of breakers is. Latencies and log lines are left out, and so is the
-- translation of an `OutboundCall` into an event of the dispatcher.
pub mod Plain
pub mod Guarded
pub mod Audited
mod Samples
use resilience_kit.Prelude.{
  ℕ, String, Bool, true, false, List, [], ◌∷◌, Option, none, some, is_empty, if◌then◌else◌,
}
use resilience_kit.Prelude.Dict.{Dict}
use resilience_kit.Exceptions.{
  Cls, Exn, Outcome, returned, raised, known, exception, runtime_error, isinstance,
}
use resilience_kit.Retry.Loop.{World}
use resilience_kit.Ssrf.{
  Net, SsrfSettings, host_or_empty, a_value_error, resolve_and_validate, assert_allowed_url,
}
use resilience_kit.Registry.{Defaults, Process}
use resilience_kit.Decorators.{resilient}
use resilience_kit.HttpClient.{Request, Response, Wire}
use resilience_kit.HttpClient.Errors.{map_httpx_errors, raise_for_server_error}
use resilience_kit.HttpClient.DnsPin.{Pins, pinned, handle_async_request}
use resilience_kit.HttpClient.Idempotency.{or_none, resolve_idempotency_header}

-- What `_raw_send` is called with, the body and the parameters as a number.
pub record SendArgs : Type 0 where
  pub method : String
  pub url : String
  pub headers : Option (Dict String)
  pub content : ℕ

-- `OutboundCall`, without the latency and the details.
pub record OutboundCall : Type 0 where
  pub method : String
  pub url : String
  pub status : Option ℕ
  pub error_class : Option Cls

pub record Platform (T : Type 0) : Type 0 where
  pub net : Net T
  pub upper : String → String
  -- the request that httpx builds
  pub build : SendArgs → Request
  pub new_key : T → T × String
  pub tracing_installed : Bool
  pub inject : Dict String → Dict String
  -- the callback `on_outbound`, or else the audit dispatcher
  pub sink : OutboundCall → T → T × Option Exn

-- An `AsyncAPIClient`, with a client of httpx that the caller owns or without.
pub record ApiClient (T : Type 0) : Type 0 where
  pub service : String
  pub client : Option (SendArgs → T → T × Outcome Response)
  pub check_ssrf : Bool

module _ {T : Type 0} (platform : Platform T) where
  abbrev pub lower : String → String
  lower = platform.net.lower

  -- `client.request`, of the caller's client or of one over the pinned transport.
  unfoldable pub client_request :
      Option (SendArgs → T → T × Outcome Response)
      → Pins
      → Wire T
      → SendArgs
      → T
      → T × Outcome Response
  unfolding handle_async_request
  client_request (some supplied) pins wire args t = supplied args t
  client_request none pins wire args t =
      handle_async_request lower pins wire (platform.build args) t

  -- `_emit_audit`: only what is no `Exception` gets through.
  unfoldable pub emit_audit : OutboundCall → T → T × Option Exn
  emit_audit call t =
      let (t', r) = platform.sink call t in
      elim r [
        | none ↦ (t', none)
        | some e ↦ if isinstance e (known exception) then (t', none) else (t', some e)
      ]

  -- `dict(headers) if headers else None`
  abbrev pub if_any : Option (Dict String) → Option (Dict String)
  if_any none = none
  if_any (some []) = none
  if_any (some (h ∷ hs)) = some (h ∷ hs)

  abbrev pub call_args : SendArgs → SendArgs
  call_args args = record args { headers = if_any args.headers }

  -- How the `try` statement of `_raw_send` ends, and what the record says of it.
  abbrev pub sent : Outcome Response → Outcome Response
  sent (raised e) = raised e
  sent (returned response) = elim (raise_for_server_error response.status_code) [
    | none ↦ returned response
    | some e ↦ raised e
  ]

  abbrev pub status_of : Outcome Response → Option ℕ
  status_of (returned response) = some response.status_code
  status_of (raised e) = none

  abbrev pub error_class_of : Outcome Response → Option Cls
  error_class_of (returned response) = none
  error_class_of (raised e) = if isinstance e (known exception) then some e.cls else none

  -- `_raw_send`, from the end of `client.request` on.
  unfoldable pub finish : SendArgs → T × Outcome Response → T × Outcome Response
  unfolding emit_audit map_httpx_errors
  finish args (t, r) =
      let mapped = map_httpx_errors r in
      let out = sent mapped in
      let call : OutboundCall = record {
        method = args.method;
        url = args.url;
        status = status_of mapped;
        error_class = error_class_of out;
      } in
      let (t', x) = emit_audit call t in elim x [ none ↦ (t', out) | some e ↦ (t', raised e) ]

  unfoldable pub raw_send : ApiClient T → Pins → Wire T → SendArgs → T → T × Outcome Response
  unfolding client_request finish
  raw_send api pins wire args t =
      finish args (client_request api.client pins wire (call_args args) t)

  unfoldable pub maybe_inject_trace_context : Option (Dict String) → Option (Dict String)
  maybe_inject_trace_context headers =
      if platform.tracing_installed then some (platform.inject (or_none headers)) else headers

  -- `resolved_ips and host`: what is pinned for the call, and else what was pinned before.
  abbrev pub pins_for : Pins → String → List String → Pins
  pins_for ambient host [] = ambient
  pins_for ambient host (ip ∷ ips) =
      if is_empty host then ambient else some (pinned lower ((host, ip ∷ ips) ∷ []))

-- The arguments of `request`, less `auth`.
pub record RequestArgs : Type 0 where
  pub send : SendArgs
  pub idempotency_key : Option String
  pub auto_idempotency_key : Bool

module _ {S : Type 0} (platform : Platform (Process S)) (time : S → ℕ) (d : Defaults)
    (w : World (Process S) Response) where
  -- `self._send`: the breaker around the retries around `_raw_send`.
  unfoldable pub send :
      ApiClient (Process S)
      → Pins
      → Wire (Process S)
      → SendArgs
      → Process S
      → Process S × Outcome (Option Response)
  unfolding resilient raw_send
  send api pins wire args =
      resilient time d api.service (record w { func = raw_send platform api pins wire args })

  -- `request`, once the addresses are there and the URL is allowed.
  unfoldable pub request_pinned :
      ApiClient (Process S)
      → Pins
      → Wire (Process S)
      → List String
      → RequestArgs
      → Process S
      → Process S × Outcome (Option Response)
  unfolding send resolve_idempotency_header maybe_inject_trace_context
  request_pinned api ambient wire resolved_ips args p =
      let (p', fresh) = platform.new_key p in
      let headers = maybe_inject_trace_context platform (
        resolve_idempotency_header (lower platform) platform.upper args.send.method
          args.send.headers args.idempotency_key args.auto_idempotency_key fresh) in
      elim (platform.net.urlparse args.send.url) [
        | none ↦ (p', raised a_value_error)
        | some parsed ↦
            let host = lower platform (host_or_empty parsed) in
            send api (pins_for platform ambient host resolved_ips) wire
              (record args.send { headers = headers }) p'
      ]

  -- `resolve_and_validate(url) if self._check_ssrf else set()`
  unfoldable pub validated :
      ApiClient (Process S) → SsrfSettings → String → Process S → Process S × Outcome (List String)
  unfolding resolve_and_validate
  validated api settings url p =
      if api.check_ssrf
      then resolve_and_validate platform.net settings url true p
      else (p, returned [])

  unfoldable pub request :
      ApiClient (Process S)
      → SsrfSettings
      → Pins
      → Wire (Process S)
      → RequestArgs
      → Process S
      → Process S × Outcome (Option Response)
  unfolding validated assert_allowed_url request_pinned
  request api settings ambient wire args p =
      let (p', r) = validated api settings args.send.url p in
      elim r [
        | raised e ↦ (p', raised e)
        | returned resolved_ips ↦ elim (assert_allowed_url platform.net settings args.send.url) [
          | some e ↦ (p', raised e)
          | none ↦ request_pinned api ambient wire resolved_ips args p'
        ]
      ]

  -- `request_sync`, from a running event loop or without one.
  unfoldable pub request_sync :
      Bool
      → ApiClient (Process S)
      → SsrfSettings
      → Pins
      → Wire (Process S)
      → RequestArgs
      → Process S
      → Process S × Outcome (Option Response)
  unfolding request
  request_sync in_loop api settings ambient wire args p =
      if in_loop
      then (p, raised (record { cls = known runtime_error; payload = 0 }))
      else request api settings ambient wire args p
