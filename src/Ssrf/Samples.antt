-- ===== src/Ssrf/Samples.antt =====
-- A resolver that answers with a public address first and a private one later, and the theorems.
use resilience_kit.Prelude.{
  ℕ, ◌+◌, String, Bool, true, false, ◌≡◌, refl, [], ◌∷◌, none, some, All, str_eq, ◌==◌,
  if◌then◌else◌,
}
use resilience_kit.Exceptions.{returned, raised}
use resilience_kit.Ssrf.{
  Address, Net, SsrfSettings, non_public, resolve_and_validate, assert_allowed_url,
}
use resilience_kit.Ssrf.Public.{IsPublic, resolve_and_validate-IsPublic}

abbrev address : String → Bool → Address
address s is_private = record {
  text = s;
  is_loopback = false;
  is_link_local = false;
  is_multicast = false;
  is_unspecified = false;
  is_private = is_private;
  is_reserved = false;
}

abbrev rebinding : Net ℕ
rebinding = record {
  urlparse = λ url.
      if str_eq url "http://api.test/x"
      then some (record { scheme = "http"; hostname = some "api.test" })
      else none;
  ip_address = λ s.
      if str_eq s "8.8.8.8"
      then some (address s false)
      else if str_eq s "10.0.0.1"
      then some (address s true)
      else none;
  getaddrinfo = λ host (n : ℕ). (n + 1, some ((if n == 0 then "8.8.8.8" else "10.0.0.1") ∷ []));
  lower = λ s. s;
}

abbrev settings : SsrfSettings
settings = record { block_private_ips = true; outbound_allowlist = ".test" ∷ [] }

first_answer :
    (resolve_and_validate rebinding settings "http://api.test/x" true 0).1
    ≡ returned ("8.8.8.8" ∷ [])
unfolding resolve_and_validate
first_answer = refl

second_answer :
    (resolve_and_validate rebinding settings "http://api.test/x" true 1).1 ≡ raised non_public
unfolding resolve_and_validate
second_answer = refl

resolve_and_validate-IsPublic_example : All (IsPublic rebinding) ("8.8.8.8" ∷ [])
resolve_and_validate-IsPublic_example =
    resolve_and_validate-IsPublic rebinding settings "http://api.test/x" true 0 ("8.8.8.8" ∷ [])
      refl first_answer

api_allowed : assert_allowed_url rebinding settings "http://api.test/x" ≡ none
unfolding assert_allowed_url
api_allowed = refl
