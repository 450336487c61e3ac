-- ===== src/Providers/Backends/Samples.antt =====
-- The Redis backend chosen by `auto`, and the theorems at it.
use resilience_kit.Prelude.{ℕ, ◌+◌, String, true, [], ◌∷◌, none, some, ◌≡◌, refl}
use resilience_kit.Prelude.Dict
use resilience_kit.Prelude.Dict.{Dict}
use resilience_kit.Exceptions.{Exn, Outcome, returned, raised, known, user, exception}
use resilience_kit.Recovery.{Recovery}
use resilience_kit.Providers.{Factory, Target, not_callable, Installed}
use resilience_kit.Providers.Backends.{
  Settings, resolve_auto, Classes, get_breaker, get_throttle, get_cache,
}
use resilience_kit.Providers.Backends.Registered.{on_roster, auto-on_roster}

-- A constructor numbers its objects by the state.
abbrev making : Factory String ℕ (Recovery ℕ)
making kwargs r = (record r { env = r.env + 1 }, returned r.env)

abbrev classes : Classes String ℕ
classes = record { memory = making; pybreaker = making; redis = λ url. making }

abbrev no_attribute :
    String → String → Recovery ℕ → Recovery ℕ × Outcome (Target String ℕ (Recovery ℕ))
no_attribute path attr r = (r, returned not_callable)

abbrev bare : Installed String ℕ (Recovery ℕ)
bare = record { attribute = no_attribute; entry_points = λ group. [] }

abbrev settings : Settings
settings = record { backend = "auto"; redis_url = some "redis://host" }

abbrev fresh : Recovery ℕ
fresh = record { registered = []; warm_hooks = []; env = 5 }

abbrev built : Recovery ℕ
built = record { registered = 5 ∷ []; warm_hooks = []; env = 6 }

abbrev pages : Dict ℕ
pages = ("pages", 5) ∷ []

-- `find_spec` of a submodule raises ModuleNotFoundError where the package is not installed.
abbrev module_not_found : Exn
module_not_found = record { cls = user 0 (known exception); payload = 0 }

-- Without the package, `auto` does not fall back to memory.
auto_without_redis : resolve_auto settings (raised module_not_found) ≡ raised module_not_found
unfolding resolve_auto
auto_without_redis = refl

auto-on_roster_example :
    (get_breaker bare settings (returned true) classes "payments" fresh ≡ (built, returned 5))
    × (get_throttle bare settings (returned true) classes "payments" (none, fresh)
        ≡ ((some 5, built), returned 5))
    × (get_cache bare settings (returned true) classes (λ alias. alias) "payments" ([], fresh)
        ≡ ((("payments", 5) ∷ [], built), returned 5))
    × (on_roster 5 built ≡ true)
unfolding Dict.get Dict.put resilience_kit.Recovery.register_for_recovery
auto-on_roster_example =
    auto-on_roster classes settings bare "redis://host" "payments" (λ alias. alias) fresh
      (record { registered = []; warm_hooks = []; env = 6 }) 5 refl refl refl (λ group. refl) refl
