-- ===== src/Audit/Decorators/Captured.antt =====
-- What a decorated call ends with, and what is recorded of it.
use resilience_kit.Prelude.{
  String, true, List, ◌∷◌, Option, none, some, Option-cases, ◌≡◌, inl, inr, arith, if◌then◌else◌,
}
use resilience_kit.Exceptions.{
  Cls, Exn, Outcome, returned, raised, known, exception, isinstance, Outcome-cases,
}
use resilience_kit.Audit.Sanitizers.{Fields, end}
use resilience_kit.Audit.Backends.{Verdict, success, failure, AuditEvent}
use resilience_kit.Audit.Decorators.{
  Capture, extract_payload, event_of, emit, after_call, wrap_async,
}

-- The verdict on a call, put on a log.
abbrev pub captured : {A : Type 0} → Outcome A → List Verdict → List Verdict
captured (returned a) verdicts = success ∷ verdicts
captured (raised e) verdicts =
    if isinstance e (known exception) then failure ∷ verdicts else verdicts

module _ {S : Type 0} (c : Capture S) where
  -- The factory and the dispatcher raise nothing but `Exception`s. A log of the state gains a
  -- line with each submit, and with nothing else that the decorator does.
  pub record IsQuiet (log : S → List Verdict) : Type 0 where
    pub factory_quiet :
        (factory : S → S × Outcome Fields) (s : S) (e : Exn)
        → c.payload_factory ≡ some factory
        → (factory s).1 ≡ raised e
        → isinstance e (known exception) ≡ true
    pub factory_log :
        (factory : S → S × Outcome Fields) (s : S)
        → c.payload_factory ≡ some factory
        → log (factory s).0 ≡ log s
    pub submit_quiet :
        (event : AuditEvent) (s : S) (e : Exn)
        → (c.submit event s).1 ≡ some e
        → isinstance e (known exception) ≡ true
    pub submit_log : (event : AuditEvent) (s : S) → log (c.submit event s).0 ≡ event.outcome ∷ log s

  module _ (log : S → List Verdict) (quiet : IsQuiet log) where
    extract_payload-quiet :
        (s : S)
        → (payload : Fields) × ((extract_payload c s).1 ≡ returned payload)
          × (log (extract_payload c s).0 ≡ log s)
    unfolding extract_payload
    extract_payload-quiet s = elim (Option-cases c.payload_factory) [
      | inl k ↦ (end, ground (arith, k), ground (arith, k))
      | inr (factory, k) ↦ elim (Outcome-cases (factory s).1) [
        | inl (payload, m) ↦
            (payload, ground (arith, k, m), ground (arith, k, m, quiet.factory_log factory s k))
        | inr (e, m) ↦
            let caught = quiet.factory_quiet factory s e k m in
            (
              end,
              ground (arith, k, m, caught),
              ground (arith, k, m, caught, quiet.factory_log factory s k),
            )
      ]
    ]

    -- One line of the log, and nothing gets through.
    emit-quiet :
        (verdict : Verdict) (cls : Option Cls) (code : Option String) (s : S)
        → ((emit c verdict cls code s).1 ≡ none)
          × (log (emit c verdict cls code s).0 ≡ verdict ∷ log s)
    unfolding emit
    emit-quiet verdict cls code s =
        let (payload, k, same) = extract_payload-quiet s in
        let s' = (extract_payload c s).0 in
        let event = event_of c verdict cls code payload s' in
        elim (Option-cases (c.submit event s').1) [
          | inl m ↦ (ground (arith, k, m), ground (arith, k, m, same, quiet.submit_log event s'))
          | inr (e, m) ↦
              let caught = quiet.submit_quiet event s' e m in
              (
                ground (arith, k, m, caught),
                ground (arith, k, m, caught, same, quiet.submit_log event s'),
              )
        ]

    -- A decorated call ends as the call itself does, and hands the dispatcher one event: a success
    -- if it returned, a failure if it raised an `Exception`, and none if it was cancelled. The
    -- payload factory and the dispatcher raise nothing but `Exception`s.
    pub wrap_async-captured :
        {A : Type 0} (func : S → S × Outcome A) (s : S)
        → let (s', out) = func s in
          ((wrap_async c func s).1 ≡ out) × (log (wrap_async c func s).0 ≡ captured out (log s'))
    unfolding wrap_async after_call
    wrap_async-captured func s =
        let (s', out) = func s in
        elim (Outcome-cases out) [
          | inl (a, k) ↦
              let h = emit-quiet success none none s' in
              (ground (arith, k, h.0), ground (arith, k, h.0, h.1))
          | inr (e, k) ↦
              let h = emit-quiet failure (some e.cls) (c.error_code e) s' in
              (ground (arith, k, h.0), ground (arith, k, h.0, h.1))
        ]
