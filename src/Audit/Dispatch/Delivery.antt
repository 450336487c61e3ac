-- ===== src/Audit/Dispatch/Delivery.antt =====
-- What a flush hands on, where it ends up, and how often it is tried.
use resilience_kit.Prelude.{
  ℕ, zero, suc, ◌+◌, String, Bool, true, false, List, [], ◌∷◌, none, some, map, ltb, length, ◌∙◌,
  subst, sym, Option-cases, Bool-cases, ◌≡◌, refl, ap, ap₂, inl, inr, arith,
}
use resilience_kit.Exceptions.{
  Exn, Outcome, returned, raised, known, exception, isinstance, Outcome-cases,
}
use resilience_kit.Audit.Sanitizers.{Redactor, Fields}
use resilience_kit.Audit.Sanitizers.Interference.{SameFields, sanitize-SameFields}
use resilience_kit.Audit.Backends.{AuditEvent}
use resilience_kit.Audit.Dispatch.{
  sanitize_event, backend_max_attempts, backoff_s, AuditWorld, pause, write_attempts,
  write_fallback, write_with_retry, flush,
}

module _ (lower : String → String) (sanitizer : Redactor) where
  -- Batches alike but for the values under redacted keys of the payloads and the details.
  pub data SameBatch : List AuditEvent → List AuditEvent → Type 0 where
    no_events : SameBatch [] []
    also :
        (event : AuditEvent) (payload details : Fields) {events others : List AuditEvent}
        → SameFields lower sanitizer event.payload payload
        → SameFields lower sanitizer event.details details
        → SameBatch events others
        → SameBatch
            (event ∷ events)
            (record event { payload = payload; details = details } ∷ others)

  map-SameBatch :
      {xs ys : List AuditEvent}
      → SameBatch xs ys
      → map (sanitize_event lower sanitizer) xs ≡ map (sanitize_event lower sanitizer) ys
  unfolding sanitize_event
  map-SameBatch no_events = refl
  map-SameBatch (also event payload details p d hs) =
      let same : AuditEvent → Fields → Fields → AuditEvent =
        λ e f g. record e { payload = f; details = g } in
      ap₂ (λ z zs. z ∷ zs)
        (ap₂ (same event) (sanitize-SameFields lower sanitizer event.payload payload p)
          (sanitize-SameFields lower sanitizer event.details details d))
        (map-SameBatch hs)

  -- A flush does not depend on the values under redacted keys: over any backend, fallback and
  -- metrics, two batches that differ in such values only are flushed in the same way.
  pub flush-SameBatch :
      {S : Type 0} (w : AuditWorld S) (xs ys : List AuditEvent) (s : S)
      → SameBatch xs ys
      → flush w lower sanitizer xs s ≡ flush w lower sanitizer ys s
  unfolding flush
  flush-SameBatch w xs ys s h = ap (λ zs. write_with_retry w zs s) (map-SameBatch h)

module _ {S : Type 0} (w : AuditWorld S) (Stored : S → Type 0) (events : List AuditEvent) where
  -- No one is cancelled, the fallback never fails, and what a write stores is there afterwards.
  pub record IsReliable : Type 0 where
    pub sleeps : (n : ℕ) (s : S) → (w.sleep n s).1 ≡ none
    pub backend_exceptions :
        (s : S) (e : Exn)
        → (w.backend.write_many events s).1 ≡ some e
        → isinstance e (known exception) ≡ true
    pub backend_stores :
        (s : S)
        → (w.backend.write_many events s).1 ≡ none
        → Stored (w.backend.write_many events s).0
    pub fallback_stores :
        (s : S)
        → ((w.fallback.write_many events s).1 ≡ none) × Stored (w.fallback.write_many events s).0

  -- The loop ends without raising, and if it says so the events are stored.
  abbrev Ends : S → Outcome Bool → Type 0
  Ends s (raised e) = ⊥
  Ends s (returned true) = Stored s
  Ends s (returned false) = Unit

  write_attempts-Ends :
      (n attempt : ℕ) (s : S)
      → IsReliable
      → Ends (write_attempts w n attempt events s).0 (write_attempts w n attempt events s).1
  unfolding write_attempts pause
  write_attempts-Ends zero attempt s h = tt
  write_attempts-Ends (suc n) attempt s h =
      let (s', r) = w.backend.write_many events s in
      let (next, drawn) = w.random s' in
      let (woken, x) = w.sleep (backoff_s attempt drawn) next in
      let tries = write_attempts w (suc n) attempt events s in
      elim (Option-cases r) [
        | inl k ↦
            let same : tries ≡ (s', returned true) = ground (arith, k) in
            subst (λ q. Ends q.0 q.1) (sym same) (h.backend_stores s k)
        | inr (e, k) ↦ elim (Bool-cases (ltb attempt backend_max_attempts)) [
          | inl m ↦
              let same : tries ≡ write_attempts w n (attempt + 1) events woken = ground (
                arith,
                k,
                m,
                h.backend_exceptions s e k,
                h.sleeps (backoff_s attempt drawn) next,
              ) in
              subst (λ q. Ends q.0 q.1) (sym same) (write_attempts-Ends n (attempt + 1) woken h)
          | inr m ↦
              let same : tries ≡ write_attempts w n (attempt + 1) events s' =
                ground (arith, k, m, h.backend_exceptions s e k) in
              subst (λ q. Ends q.0 q.1) (sym same) (write_attempts-Ends n (attempt + 1) s' h)
        ]
      ]

  -- Whatever `Exception`s the backend raises, a retried write raises nothing, and at its end the
  -- events are stored, by the backend or by a fallback that does not fail.
  write_with_retry_stored :
      (s : S)
      → IsReliable
      → ((write_with_retry w events s).1 ≡ none) × Stored (write_with_retry w events s).0
  unfolding write_with_retry write_fallback
  write_with_retry_stored s h =
      let (s', r) = write_attempts w backend_max_attempts 1 events s in
      let ends = write_attempts-Ends backend_max_attempts 1 s h in
      let reported = w.incr "audit.write_failed" (length events) s' in
      let after = write_with_retry w events s in
      elim (Outcome-cases r) [
        | inr (e, k) ↦ absurd (subst (Ends s') k ends)
        | inl (written, k) ↦ elim (Bool-cases written) [
          | inl t ↦
              let same : after ≡ (s', none) = ground (arith, k, t) in
              (
                ap (λ q. q.1) same,
                subst Stored (ap (λ q. q.0) (sym same)) (subst (Ends s') (k ∙ ap returned t) ends),
              )
          | inr f ↦
              let stores = h.fallback_stores reported in
              let same : after ≡ ((w.fallback.write_many events reported).0, none) =
                ground (arith, k, f, stores.0) in
              (ap (λ q. q.1) same, subst Stored (ap (λ q. q.0) (sym same)) stores.1)
        ]
      ]

-- Whatever `Exception`s the backend raises, a flush of the worker raises nothing, and at its end the
-- sanitised events are stored: by the backend, or by the fallback, provided that it never fails. No
-- sleep is cut short.
pub flush_stored :
    {S : Type 0} (w : AuditWorld S) (Stored : S → Type 0) (lower : String → String)
    (sanitizer : Redactor) (batch : List AuditEvent) (s : S)
    → IsReliable w Stored (map (sanitize_event lower sanitizer) batch)
    → ((flush w lower sanitizer batch s).1 ≡ none) × Stored (flush w lower sanitizer batch s).0
unfolding flush
flush_stored w Stored lower sanitizer batch s h =
    write_with_retry_stored w Stored (map (sanitize_event lower sanitizer) batch) s h
