-- ===== src/HttpClient/Auth/Samples.antt =====
-- A signed request, and the theorem at two of them.
use resilience_kit.Prelude.{String, [], ◌∷◌, ◌++◌, none, ◌≡◌, refl}
use resilience_kit.Exceptions.{returned, raised}
use resilience_kit.HttpClient.Auth.{
  Bytes, Request, Signed, no_secret, canonical, Codecs, bearer_auth, basic_auth, hmac_auth,
}
use resilience_kit.HttpClient.Auth.Canonical.{canonical_binds}

abbrev text_of : Bytes → String
text_of [] = "none"
text_of (b ∷ bs) = "some"

-- The text itself stands for its digest.
abbrev codecs : Codecs
codecs = record {
  hmac_sha256 = λ secret text. text;
  b64encode = text_of;
  digits = λ n. n ∷ [];
  text_of = text_of;
  second = 10;
}

-- POST /a x
abbrev request : Request
request = record { method = 80 ∷ []; raw_path = 47 ∷ 97 ∷ []; content = 120 ∷ 10 ∷ [] }

abbrev signed : Signed
signed = record { request = request; timestamp = 51 ∷ [] }

-- The same request, as a server puts it together.
abbrev received : Signed
received = record {
  request = record {
    method = 80 ∷ [];
    raw_path = (47 ∷ []) ++ 97 ∷ [];
    content = (120 ∷ []) ++ 10 ∷ [];
  };
  timestamp = codecs.digits 51;
}

refused :
    (hmac_auth codecs [] none ≡ raised no_secret)
    × (bearer_auth "" ≡ raised no_secret)
    × (bearer_auth "t" ≡ returned (("Authorization", "Bearer t") ∷ []))
    × (basic_auth "user" "" ≡ raised no_secret)
unfolding hmac_auth bearer_auth basic_auth
refused = (refl, refl, refl, refl)

signed_text : canonical signed ≡ 80 ∷ 10 ∷ 47 ∷ 97 ∷ 10 ∷ 51 ∷ 10 ∷ 120 ∷ 10 ∷ []
unfolding canonical
signed_text = refl

canonical_binds_example : signed ≡ received
canonical_binds_example =
    canonical_binds signed received (refl, refl) (refl, refl) (refl, refl) refl
