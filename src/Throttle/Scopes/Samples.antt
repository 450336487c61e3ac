-- ===== src/Throttle/Scopes/Samples.antt =====
-- The keys of a client's address, and the theorem at them.
use resilience_kit.Prelude.{String, [], ◌∷◌, some, ◌≡◌, refl}
use resilience_kit.Exceptions.{returned}
use resilience_kit.Throttle.Scopes.{Attrs, ip, auth, build_key}
use resilience_kit.Throttle.Scopes.Separate.{attr_of, build_key_separate}

abbrev client : Attrs
client = ("ip", some "10.0.0.1") ∷ []

abbrev client_and_user : Attrs
client_and_user = ("user_tier", some "gold") ∷ ("ip", some "10.0.0.1") ∷ []

auth_key : build_key auth client ≡ returned "throttle:auth:10.0.0.1"
unfolding build_key resilience_kit.Prelude.Dict.get
auth_key = refl

build_key_separate_example : (ip ≡ ip) × (attr_of ip client ≡ attr_of ip client_and_user)
unfolding build_key resilience_kit.Prelude.Dict.get
build_key_separate_example =
    build_key_separate ip ip client client_and_user "throttle:ip:10.0.0.1" refl refl
