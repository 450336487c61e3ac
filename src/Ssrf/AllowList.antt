-- ===== src/Ssrf/AllowList.antt =====
-- What the allow-list lets through.
use resilience_kit.Prelude.{
  String, true, false, ◌≡◌, List, [], ◌∷◌, Memᴰ, head, tail, refl, none, some, is_empty, str_in,
  Option-cases, Bool-cases, inl, inr, arith,
}
use resilience_kit.Ssrf.{
  Net, Url, SsrfSettings, host_or_empty, matches_entry, matches_any, assert_allowed_url,
}

module _ {S : Type 0} (net : Net S) where
  matches_any_lem :
      (host : String) (entries : List String)
      → matches_any net host entries ≡ true
      → (entry : String) × Memᴰ entry entries × (matches_entry net host (net.lower entry) ≡ true)
  unfolding matches_any
  matches_any_lem host [] h = ground arith
  matches_any_lem host (entry ∷ entries) h =
      elim (Bool-cases (matches_entry net host (net.lower entry))) [
        | inl m ↦ (entry, head refl, m)
        | inr m ↦
            let (e, at, k) = matches_any_lem host entries (ground (arith, m, h)) in (e, tail at, k)
      ]

  -- The guard against a list that is not empty and has no wildcard lets a URL through only if its
  -- host in lower case is not empty and an entry of the list matches it.
  pub assert_allowed_url_lem :
      (settings : SsrfSettings) (url first : String) (others : List String)
      → settings.outbound_allowlist ≡ first ∷ others
      → str_in "*" (first ∷ others) ≡ false
      → assert_allowed_url net settings url ≡ none
      → (parsed : Url) × (entry : String) × (net.urlparse url ≡ some parsed)
        × Memᴰ entry (first ∷ others)
        × (is_empty (net.lower (host_or_empty parsed)) ≡ false)
        × (matches_entry net (net.lower (host_or_empty parsed)) (net.lower entry) ≡ true)
  unfolding assert_allowed_url
  assert_allowed_url_lem settings url first others l closed h =
      elim (Option-cases (net.urlparse url)) [
        | inl k ↦ ground (arith, l, closed, k, h)
        | inr (parsed, k) ↦
            let host = net.lower (host_or_empty parsed) in
            let found : matches_any net host (first ∷ others) ≡ true =
              ground (arith, l, closed, k, h) in
            let full : is_empty host ≡ false = ground (arith, l, closed, k, h) in
            let (entry, at, m) = matches_any_lem host (first ∷ others) found in
            (parsed, entry, k, at, full, m)
      ]
