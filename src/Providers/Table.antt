-- ===== src/Providers/Table.antt =====
-- The chain as one table.
use text.Mathlib.Text.{find?}
use resilience_kit.Prelude.{
  String, [], ◌∷◌, ◌++◌, map, Option, none, some, Option-cases, inl, inr, ◌≡◌, arith,
}
use resilience_kit.Prelude.Dict
use resilience_kit.Prelude.Dict.{Dict}
use resilience_kit.Exceptions.{Outcome, raised}
use resilience_kit.Providers.{
  Factory, Installed, name_of, unknown_backend, load_and_call, resolve_named, resolve_provider,
}

module _ {K A S : Type 0} (x : Installed K A S) where
  -- The entry points of a group before the builtins, each with what it takes to build a backend.
  abbrev pub table : String → Dict (Factory K A S) → Dict (Factory K A S)
  table group builtins = map (λ ep. (ep.0, load_and_call x ep.1)) (x.entry_points group) ++ builtins

  -- Of a table: the entry that is found builds the backend.
  abbrev pub build : Option (Factory K A S) → K → S → S × Outcome A
  build none kwargs s = (s, raised unknown_backend)
  build (some factory) kwargs s = factory kwargs s

  resolve_named-eq :
      (eps : Dict (S → S × Outcome (Factory K A S))) (builtins : Dict (Factory K A S))
      (name : String) (kwargs : K) (s : S)
      → resolve_named x eps builtins name kwargs s
        ≡ build (Dict.get (map (λ ep. (ep.0, load_and_call x ep.1)) eps ++ builtins) name) kwargs s
  unfolding resolve_named Dict.get
  resolve_named-eq [] builtins name kwargs s = elim (Option-cases (Dict.get builtins name)) [
    | inl k ↦ ground (arith, k)
    | inr (factory, k) ↦ ground (arith, k)
  ]
  resolve_named-eq ((ep, load) ∷ eps) builtins name kwargs s =
      ground (arith, resolve_named-eq eps builtins name kwargs s)

  -- A name without a colon is looked up in one table, in which every entry point comes before every
  -- builtin, so that it shadows a builtin of its name; a name that is in none is an
  -- UnknownBackendError, and nothing is built.
  pub resolve_provider-table :
      (group name : String) (builtins : Dict (Factory K A S)) (kwargs : K) (s : S)
      → find? name ":" ≡ none
      → resolve_provider x group (name_of name) builtins kwargs s
        ≡ build (Dict.get (table group builtins) name) kwargs s
  unfolding resolve_provider
  resolve_provider-table group name builtins kwargs s h =
      ground (arith, h, resolve_named-eq (x.entry_points group) builtins name kwargs s)
