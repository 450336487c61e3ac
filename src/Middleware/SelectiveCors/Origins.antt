-- ===== src/Middleware/SelectiveCors/Origins.antt =====
-- Who is given leave to read a response.
use resilience_kit.Prelude.{
  map_same, String, Bool, true, false, List, [], ◌∷◌, Option, none, some, map, str_eq, Bool-cases,
  ◌≡◌, refl, ap, subst, ◌⊎◌, inl, inr, arith, if◌then◌else◌,
}
use resilience_kit.Middleware.Asgi.{
  Scope, Frame, response_start, response_body, IsSent, IsHeader-append,
}
use resilience_kit.Middleware.SelectiveCors.{
  Cors, allow_origin_header, header, matches, is_origin_allowed, respond_preflight, with_cors,
  is_options, call,
}

module _ (lower : String → String) (c : Cors) where
  -- The headers that the middleware adds name the origin, and only if it is allowed.
  with_cors-IsSent :
      (value : String) (origin : Option String) (allowed : Bool) (frames : List Frame)
      → IsSent allow_origin_header value (map (with_cors lower c origin allowed) frames)
      → IsSent allow_origin_header value frames ⊎ ((origin ≡ some value) × (allowed ≡ true))
  unfolding with_cors
  with_cors-IsSent value none allowed frames h = inl (
      subst (IsSent allow_origin_header value)
        (map_same (with_cors lower c none allowed) (λ f. refl) frames) h)
  with_cors-IsSent value (some origin) false frames h = inl (
      subst (IsSent allow_origin_header value)
        (map_same (with_cors lower c (some origin) false) (λ f. refl) frames) h)
  with_cors-IsSent value (some origin) true [] h = inl h
  with_cors-IsSent value (some origin) true (response_body body ∷ frames) h =
      with_cors-IsSent value (some origin) true frames h
  with_cors-IsSent value (some origin) true (response_start status headers ∷ frames) (inr h) =
      elim (with_cors-IsSent value (some origin) true frames h) [
        | inl k ↦ inl (inr k)
        | inr k ↦ inr k
      ]
  with_cors-IsSent value (some origin) true (response_start status headers ∷ frames) (inl h) =
      elim (IsHeader-append allow_origin_header value headers
        ((allow_origin_header, origin) ∷ ("vary", "Origin") ∷ []) h) [
          | inl k ↦ inl (inl k)
          | inr (inl k) ↦ inr (ap some k.1, refl)
          | inr (inr (inl k)) ↦ cc
          | inr (inr (inr x)) ↦ elim x [ ]
        ]

  denied_silent :
      (value : String) → ¬ IsSent allow_origin_header value (respond_preflight lower c none)
  unfolding respond_preflight
  denied_silent value (inl (inl k)) = cc
  denied_silent value (inl (inr x)) = elim x [ ]
  denied_silent value (inr x) = elim x [ ]

  preflight-IsSent :
      (value : String) (origin : Option String) (allowed : Bool)
      → IsSent allow_origin_header value
          (respond_preflight lower c (if allowed then origin else none))
      → (origin ≡ some value) × (allowed ≡ true)
  unfolding respond_preflight
  preflight-IsSent value origin false h = absurd (denied_silent value h)
  preflight-IsSent value none true h = absurd (denied_silent value h)
  preflight-IsSent value (some origin) true (inr x) = elim x [ ]
  preflight-IsSent value (some origin) true (inl h) = elim h [
    | inl k ↦ (ap some k.1, refl)
    | inr (inl k) ↦ cc
    | inr (inr (inl k)) ↦ cc
    | inr (inr (inr (inl k))) ↦ cc
    | inr (inr (inr (inr (inl k)))) ↦ cc
    | inr (inr (inr (inr (inr x)))) ↦ elim x [ ]
  ]

  -- Where the application sets no such header itself, a response has the header
  -- access-control-allow-origin only if the request has a path that matches, and an origin that is
  -- allowed, which is the header's value.
  pub call-IsSent :
      {S : Type 0} (app : Scope → S → S × List Frame) (scope : Scope) (s : S) (value : String)
      → ((t : S) → ¬ IsSent allow_origin_header value (app scope t).1)
      → IsSent allow_origin_header value (call lower c app scope s).1
      → (matches lower c scope.path ≡ true)
        × (header lower scope.headers "origin" ≡ some value)
        × (is_origin_allowed lower c (some value) ≡ true)
  unfolding call
  call-IsSent app scope s value silent h =
      let origin = header lower scope.headers "origin" in
      let allowed = is_origin_allowed lower c origin in
      let frames = (call lower c app scope s).1 in
      let own : frames ≡ (app scope s).1 → ⊥ =
        λ same. silent s (subst (IsSent allow_origin_header value) same h) in
      elim (Bool-cases (str_eq scope.type_of "http")) [
        | inr f ↦ absurd (own (ground (arith, f)))
        | inl t ↦ elim (Bool-cases (matches lower c scope.path)) [
          | inr f ↦ absurd (own (ground (arith, t, f)))
          | inl m ↦ elim (Bool-cases (is_options scope.method)) [
            | inl o ↦
                let same : frames ≡ respond_preflight lower c (if allowed then origin else none) =
                  ground (arith, t, m, o) in
                let (k, j) =
                  preflight-IsSent value origin allowed
                    (subst (IsSent allow_origin_header value) same h) in
                (m, k, subst (λ o. is_origin_allowed lower c o ≡ true) k j)
            | inr o ↦
                let same : frames ≡ map (with_cors lower c origin allowed) (app scope s).1 =
                  ground (arith, t, m, o) in
                elim (with_cors-IsSent value origin allowed (app scope s).1
                  (subst (IsSent allow_origin_header value) same h)) [
                    | inl k ↦ absurd (silent s k)
                    | inr (k, j) ↦ (m, k, subst (λ o. is_origin_allowed lower c o ≡ true) k j)
                  ]
          ]
        ]
      ]
