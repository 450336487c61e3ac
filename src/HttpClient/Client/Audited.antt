-- ===== src/HttpClient/Client/Audited.antt =====
-- What the caller of `_raw_send` and the audit sink are told of one attempt.
use resilience_kit.Prelude.{
  ℕ, ltb, true, ◌≡◌, Option, none, some, if◌then◌else◌, inl, inr, Option-cases, arith,
}
use resilience_kit.Exceptions.{
  Cls, Exn, issubclass, Outcome, returned, raised, known, isinstance, exception,
  external_timeout_error,
}
use resilience_kit.HttpClient.{Response, Wire}
use resilience_kit.HttpClient.Errors.{map_error, map_httpx_errors, raise_for_server_error}
use resilience_kit.HttpClient.DnsPin.{Pins}
use resilience_kit.HttpClient.Client.{
  SendArgs, OutboundCall, Platform, ApiClient, call_args, client_request, emit_audit, finish,
  raw_send,
}

module _ {T : Type 0} (platform : Platform T) where
  abbrev record_of : SendArgs → Option ℕ → Option Cls → OutboundCall
  record_of args status error_class = record {
    method = args.method;
    url = args.url;
    status = status;
    error_class = error_class;
  }

  -- What one attempt is audited as, once httpx has answered.
  abbrev pub audited : SendArgs → Outcome Response → OutboundCall
  audited args (returned response) =
      record_of args (some response.status_code)
        (if ltb response.status_code 500 then none else some (known external_timeout_error))
  audited args (raised e) =
      let e' = map_error e in
      record_of args none (if isinstance e' (known exception) then some e'.cls else none)

  -- And what its caller gets.
  abbrev pub outcome_of : Outcome Response → Outcome Response
  outcome_of (returned response) =
      if ltb response.status_code 500
      then returned response
      else raised (record { cls = known external_timeout_error; payload = response.status_code })
  outcome_of (raised e) = raised (map_error e)

  abbrev QuietSink : Type 0
  QuietSink =
      (call : OutboundCall) (u : T) (e : Exn)
      → (platform.sink call u).1 ≡ some e
      → isinstance e (known exception) ≡ true

  emit_audit_quiet :
      (call : OutboundCall) (t : T)
      → QuietSink
      → emit_audit platform call t ≡ ((platform.sink call t).0, none)
  unfolding emit_audit
  emit_audit_quiet call t quiet = elim (Option-cases (platform.sink call t).1) [
    | inl k ↦ ground (arith, k)
    | inr (e, k) ↦ ground (arith, k, quiet call t e k)
  ]

  finish-audited :
      (args : SendArgs) (t : T) (r : Outcome Response)
      → QuietSink
      → finish platform args (t, r) ≡ ((platform.sink (audited args r) t).0, outcome_of r)
  unfolding finish map_httpx_errors raise_for_server_error issubclass
  finish-audited args t (returned response) quiet =
      ground (arith, emit_audit_quiet (audited args (returned response)) t quiet)
  finish-audited args t (raised e) quiet =
      ground (arith, emit_audit_quiet (audited args (raised e)) t quiet)

  -- An attempt over a sink that raises nothing but `Exception`s is audited exactly once, after the
  -- answer, and ends as without a sink: a response below 500 is returned, one from 500 on is
  -- raised as a timeout, and an exception is raised as `map_error` of it. A cancelled attempt is
  -- audited without an error class.
  pub raw_send-audited :
      (api : ApiClient T) (pins : Pins) (wire : Wire T) (args : SendArgs) (t : T)
      → ((call : OutboundCall) (u : T) (e : Exn)
          → (platform.sink call u).1 ≡ some e
          → isinstance e (known exception) ≡ true)
      → let (t', r) = client_request platform api.client pins wire (call_args platform args) t in
        raw_send platform api pins wire args t
        ≡ ((platform.sink (audited args r) t').0, outcome_of r)
  unfolding raw_send
  raw_send-audited api pins wire args t quiet =
      let (t', r) = client_request platform api.client pins wire (call_args platform args) t in
      finish-audited args t' r quiet
