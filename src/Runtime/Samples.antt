-- ===== src/Runtime/Samples.antt =====
-- Old names in an environment, and the theorem at it.
use resilience_kit.Prelude.{String, true, [], ◌∷◌, some, ◌≡◌, refl}
use resilience_kit.Prelude.Dict
use resilience_kit.Prelude.Dict.{Dict}
use resilience_kit.Runtime.{Translation, copied, both_set, legacy_env_alias, default_aliases}
use resilience_kit.Runtime.Aliases.{legacy_env_alias-get}

abbrev environment : Dict String
environment =
    ("SSRF_ALLOWLIST", "b.example")
    ∷ ("REDIS_URL", "redis://old")
    ∷ ("RESILIENCE_REDIS_URL", "redis://new")
    ∷ []

translated : legacy_env_alias environment default_aliases true ≡ record {
  env =
      ("SSRF_ALLOWLIST", "b.example")
      ∷ ("REDIS_URL", "redis://old")
      ∷ ("RESILIENCE_REDIS_URL", "redis://new")
      ∷ ("RESILIENCE_SSRF__OUTBOUND_ALLOWLIST", "b.example")
      ∷ [];
  applied =
      ("REDIS_URL", "RESILIENCE_REDIS_URL")
      ∷ ("SSRF_ALLOWLIST", "RESILIENCE_SSRF__OUTBOUND_ALLOWLIST")
      ∷ [];
  warnings =
      both_set "REDIS_URL" "RESILIENCE_REDIS_URL"
      ∷ copied "SSRF_ALLOWLIST" "RESILIENCE_SSRF__OUTBOUND_ALLOWLIST"
      ∷ [];
}
unfolding legacy_env_alias resilience_kit.Runtime.translate resilience_kit.Runtime.translate_one
    Dict.get Dict.put
translated = refl

legacy_env_alias-get_example :
    Dict.get (legacy_env_alias environment default_aliases true).env "RESILIENCE_REDIS_URL"
    ≡ some "redis://new"
unfolding Dict.get
legacy_env_alias-get_example =
    legacy_env_alias-get environment default_aliases true "RESILIENCE_REDIS_URL" refl
