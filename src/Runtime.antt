-- ===== src/Runtime.antt =====
-- runtime.py: the cached settings, and the translation of old environment names.
--
-- A source of settings reads an environment `E`. Warnings are what `warnings.warn` is called with.
pub mod Aliases
mod Samples
use resilience_kit.Prelude.{
  String, Bool, List, [], ◌∷◌, ◌++◌, Option, none, some, Option-cases, inl, inr, ◌≡◌, arith,
  if◌then◌else◌,
}
use resilience_kit.Prelude.Dict
use resilience_kit.Prelude.Dict.{Dict}
use resilience_kit.Exceptions.{Outcome, returned, raised, Outcome-cases}

-- The module's variables.
pub record Runtime (E S : Type 0) : Type 0 where
  pub source : E → Outcome S
  pub cached : Option S

module _ {E S : Type 0} where
  unfoldable pub set_settings_source : (E → Outcome S) → Runtime E S → Runtime E S
  set_settings_source source r = record { source = source; cached = none }

  unfoldable pub get_settings : E → Runtime E S → Runtime E S × Outcome S
  get_settings env r = elim r.cached [
    | some settings ↦ (r, returned settings)
    | none ↦ elim (r.source env) [
      | raised e ↦ (r, raised e)
      | returned settings ↦ (record r { cached = some settings }, returned settings)
    ]
  ]

  unfoldable pub reset_settings_cache : (E → Outcome S) → Runtime E S → Runtime E S
  reset_settings_cache env_source r = record { source = env_source; cached = none }

-- Settings that have been returned stay, whatever happens to the environment.
get_settings_kept :
    {E S : Type 0} (env later : E) (r : Runtime E S) (settings : S)
    → (get_settings env r).1 ≡ returned settings
    → get_settings later (get_settings env r).0 ≡ ((get_settings env r).0, returned settings)
unfolding get_settings
get_settings_kept env later r settings h = elim (Option-cases r.cached) [
  | inr (s, k) ↦ ground (arith, h, k)
  | inl k ↦ elim (Outcome-cases (r.source env)) [
    | inl (s, j) ↦ ground (arith, h, k, j)
    | inr (e, j) ↦ ground (arith, h, k, j)
  ]
]

pub data Warning : Type 0 where
  -- of an old name, and the new one
  copied both_set : String → String → Warning

pub record Translation : Type 0 where
  pub env : Dict String
  pub applied : Dict String
  pub warnings : List Warning

abbrev pub warned : Bool → Warning → List Warning → List Warning
warned warn w ws = if warn then ws ++ w ∷ [] else ws

-- One round of the loop.
unfoldable pub translate_one : Bool → String → String → Translation → Translation
translate_one warn legacy new t = elim (Dict.get t.env legacy) [
  | none ↦ t
  | some legacy_val ↦ elim (Dict.get t.env new) [
    | none ↦ record {
      env = Dict.put t.env new legacy_val;
      applied = Dict.put t.applied legacy new;
      warnings = warned warn (copied legacy new) t.warnings;
    }
    | some new_val ↦ record t {
      applied = Dict.put t.applied legacy new;
      warnings = warned warn (both_set legacy new) t.warnings;
    }
  ]
]

unfoldable pub translate : Bool → Dict String → Translation → Translation
unfolding translate_one
translate warn [] t = t
translate warn ((legacy, new) ∷ aliases) t =
    translate warn aliases (translate_one warn legacy new t)

unfoldable pub legacy_env_alias : Dict String → Dict String → Bool → Translation
unfolding translate
legacy_env_alias env aliases warn =
    translate warn aliases (record { env = env; applied = []; warnings = [] })

abbrev pub default_aliases : Dict String
default_aliases =
    ("FIELD_ENCRYPTION_KEY", "RESILIENCE_CRYPTO__FIELD_ENCRYPTION_KEY")
    ∷ ("REDIS_URL", "RESILIENCE_REDIS_URL")
    ∷ ("OUTBOUND_ALLOWLIST", "RESILIENCE_SSRF__OUTBOUND_ALLOWLIST")
    ∷ ("SSRF_ALLOWLIST", "RESILIENCE_SSRF__OUTBOUND_ALLOWLIST")
    ∷ ("BLOCK_PRIVATE_IPS", "RESILIENCE_SSRF__BLOCK_PRIVATE_IPS")
    ∷ ("RATE_LIMIT_ANON", "RESILIENCE_DEFAULTS__THROTTLE__ANON_RATE")
    ∷ ("RATE_LIMIT_AUTH", "RESILIENCE_DEFAULTS__THROTTLE__AUTH_RATE")
    ∷ ("RATE_LIMIT_BURST", "RESILIENCE_DEFAULTS__THROTTLE__BURST_RATE")
    ∷ ("CIRCUIT_BREAKER_FAIL_MAX", "RESILIENCE_DEFAULTS__CIRCUIT_BREAKER__FAIL_MAX")
    ∷ ("CIRCUIT_BREAKER_RESET_TIMEOUT", "RESILIENCE_DEFAULTS__CIRCUIT_BREAKER__RESET_TIMEOUT")
    ∷ ("RECOVERY_PROBE_INTERVAL", "RESILIENCE_RECOVERY__PROBE_INTERVAL_SECONDS")
    ∷ ("AUDIT_SINK", "RESILIENCE_AUDIT__SINK")
    ∷ []
