-- ===== src/Ssrf/Public.antt =====
-- What `resolve_and_validate` returns.
use resilience_kit.Prelude.{
  is_empty, String, Bool, true, false, ◌≡◌, ◌≢◌, List, [], ◌∷◌, subst, none, some, Option-cases,
  All, inl, inr, arith,
}
use resilience_kit.Exceptions.{Outcome-cases, returned}
use resilience_kit.Ssrf.{
  Url, host_or_empty, Net, SsrfSettings, classify_non_public, check_addrs, resolve, validate_host,
  resolve_and_validate,
}

module _ {S : Type 0} (net : Net S) where
  -- A text that reads as an address and is in none of the categories.
  abbrev pub IsPublic : String → Type 0
  IsPublic addr = classify_non_public net addr ≡ returned none

  check_addrs-IsPublic : (addrs : List String) → check_addrs net addrs ≡ none → All IsPublic addrs
  unfolding check_addrs
  check_addrs-IsPublic [] h = tt
  check_addrs-IsPublic (addr ∷ addrs) h = elim (Outcome-cases (classify_non_public net addr)) [
    | inr (e, k) ↦ ground (arith, k, h)
    | inl (reason, k) ↦ elim (Option-cases reason) [
      | inl n ↦ (ground (arith, k, n), check_addrs-IsPublic addrs (ground (arith, k, n, h)))
      | inr (r, n) ↦ ground (arith, k, n, h)
    ]
  ]

  validate_host-IsPublic :
      (host : String) (strict : Bool) (s : S) (addrs : List String)
      → (validate_host net host strict s).1 ≡ returned addrs
      → All IsPublic addrs
  unfolding validate_host
  validate_host-IsPublic host strict s addrs h =
      elim (Outcome-cases (resolve net host strict s).1) [
        | inr (e, k) ↦ ground (arith, k, h)
        | inl (found, k) ↦ elim (Option-cases (check_addrs net found)) [
          | inr (e, c) ↦ ground (arith, k, c, h)
          | inl c ↦
              let same : found ≡ addrs = ground (arith, k, c, h) in
              subst (All IsPublic) same (check_addrs-IsPublic found c)
        ]
      ]

  -- While private addresses are blocked, every address that is returned, and so pinned, has been
  -- found public: whatever the name resolves to, and whether or not it has to.
  pub resolve_and_validate-IsPublic :
      (settings : SsrfSettings) (url : String) (strict : Bool) (s : S) (addrs : List String)
      → settings.block_private_ips ≡ true
      → (resolve_and_validate net settings url strict s).1 ≡ returned addrs
      → All IsPublic addrs
  unfolding resolve_and_validate
  resolve_and_validate-IsPublic settings url strict s addrs on h =
      elim (Option-cases (net.urlparse url)) [
        | inl k ↦ ground (arith, on, k, h)
        | inr (parsed, k) ↦
            let validated : (validate_host net (host_or_empty parsed) strict s).1 ≡ returned addrs =
              ground (arith, on, k, h) in
            validate_host-IsPublic (host_or_empty parsed) strict s addrs validated
      ]

  -- With a resolver that never answers with an empty list, a strict validation that returns has
  -- something to pin.
  pub resolve_and_validate_pins :
      (settings : SsrfSettings) (url : String) (s : S) (addrs : List String)
      → settings.block_private_ips ≡ true
      → ((host : String) (t : S) → (net.getaddrinfo host t).1 ≢ some [])
      → (resolve_and_validate net settings url true s).1 ≡ returned addrs
      → addrs ≢ []
  unfolding resolve_and_validate validate_host resolve
  resolve_and_validate_pins settings url s addrs on answers h =
      elim (Option-cases (net.urlparse url)) [
        | inl k ↦ ground (arith, on, k, h)
        | inr (parsed, k) ↦ ground (arith, on, k, h, answers (host_or_empty parsed) s)
      ]

  -- A validation that returns has read a host.
  pub resolve_and_validate_host :
      (settings : SsrfSettings) (url : String) (strict : Bool) (s : S) (addrs : List String)
      → settings.block_private_ips ≡ true
      → (resolve_and_validate net settings url strict s).1 ≡ returned addrs
      → (parsed : Url) × (net.urlparse url ≡ some parsed)
        × (is_empty (host_or_empty parsed) ≡ false)
  unfolding resolve_and_validate
  resolve_and_validate_host settings url strict s addrs on h =
      elim (Option-cases (net.urlparse url)) [
        | inl k ↦ ground (arith, on, k, h)
        | inr (parsed, k) ↦ (parsed, k, ground (arith, on, k, h))
      ]
