-- ===== src/Providers/Samples.antt =====
-- A third-party package that publishes a backend, and the theorem at it.
use resilience_kit.Prelude.{ℕ, ◌+◌, String, [], ◌∷◌, ◌≡◌, refl}
use resilience_kit.Prelude.Dict
use resilience_kit.Prelude.Dict.{Dict}
use resilience_kit.Exceptions.{Outcome, returned, raised}
use resilience_kit.Providers.{
  Factory, Target, not_callable, Installed, name_of, unknown_backend, non_callable,
  resolve_provider,
}
use resilience_kit.Providers.Table.{resolve_provider-table}

-- A factory returns its number, and counts what is built.
abbrev building : ℕ → Factory ℕ ℕ ℕ
building n kwargs s = (s + 1, returned n)

abbrev no_attribute : String → String → ℕ → ℕ × Outcome (Target ℕ ℕ ℕ)
no_attribute path attr s = (s, returned not_callable)

abbrev published : String → Dict (ℕ → ℕ × Outcome (Factory ℕ ℕ ℕ))
published group = ("memory", λ s. (s, returned (building 7))) ∷ []

abbrev installed : Installed ℕ ℕ ℕ
installed = record { attribute = no_attribute; entry_points = published }

abbrev builtins : Dict (Factory ℕ ℕ ℕ)
builtins = ("memory", building 1) ∷ ("redis", building 2) ∷ []

chain :
    (resolve_provider installed "caches" (name_of "memory") builtins 0 0 ≡ (1, returned 7))
    × (resolve_provider installed "caches" (name_of "redis") builtins 0 0 ≡ (1, returned 2))
    × (resolve_provider installed "caches" (name_of "pkg.mod:Class") builtins 0 0
        ≡ (0, raised non_callable))
unfolding resolve_provider resilience_kit.Providers.resolve_named
    resilience_kit.Providers.resolve_importable Dict.get
chain = (refl, refl, refl)

resolve_provider-table_example :
    resolve_provider installed "caches" (name_of "disk") builtins 0 0 ≡ (0, raised unknown_backend)
unfolding Dict.get
resolve_provider-table_example = resolve_provider-table installed "caches" "disk" builtins 0 0 refl
