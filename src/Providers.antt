-- ===== src/Providers.antt =====
-- _providers.py: `resolve_provider`.
--
-- A factory takes its keyword arguments `K` and moves a state `S`. What Python's import system and the
-- installed packages hold is a record. The texts of an error are left out.
pub mod Table
pub mod Backends
mod Samples
use Prim.Native.String.{len, slice}
use text.Mathlib.Text.{find?}
use resilience_kit.Prelude.{
  ℕ, ◌+◌, String, List, [], ◌∷◌, Option, none, some, str_eq, if◌then◌else◌,
}
use resilience_kit.Prelude.Dict
use resilience_kit.Prelude.Dict.{Dict}
use resilience_kit.Exceptions.{
  Exn, Outcome, returned, raised, known, unknown_backend_error, type_error,
}

abbrev pub Factory : Type 0 → Type 0 → Type 0 → Type 0
Factory K A S = K → S → S × Outcome A

-- What a module's attribute is.
pub data Target (K A S : Type 0) : Type 0 where
  callable : Factory K A S → Target K A S
  not_callable : Target K A S

pub record Installed (K A S : Type 0) : Type 0 where
  -- `getattr(importlib.import_module(module), attr)`
  pub attribute : String → String → S → S × Outcome (Target K A S)
  -- of a group: the names, with `load`
  pub entry_points : String → Dict (S → S × Outcome (Factory K A S))

-- What is asked for.
pub data Name (K A S : Type 0) : Type 0 where
  instance_of : A → Name K A S
  factory_of : Factory K A S → Name K A S
  name_of : String → Name K A S

abbrev pub unknown_backend : Exn
unknown_backend = record { cls = known unknown_backend_error; payload = 0 }

abbrev pub non_callable : Exn
non_callable = record { cls = known type_error; payload = 0 }

module _ {K A S : Type 0} (x : Installed K A S) where
  -- Step 2, of a name whose first colon is at `i`.
  unfoldable pub resolve_importable : String → ℕ → K → S → S × Outcome A
  resolve_importable name i kwargs s =
      let (s', target) = x.attribute (slice name 0 i) (slice name (i + 1) (len name)) s in
      elim target [
        | raised e ↦ (s', raised e)
        | returned t ↦ elim t [
          | callable factory ↦ factory kwargs s'
          | not_callable ↦ (s', raised non_callable)
        ]
      ]

  abbrev pub load_and_call : (S → S × Outcome (Factory K A S)) → K → S → S × Outcome A
  load_and_call load kwargs s =
      let (s', target) = load s in
      elim target [ raised e ↦ (s', raised e) | returned factory ↦ factory kwargs s' ]

  -- Steps 3 to 5: the loop over the entry points, the builtins, the error.
  unfoldable pub resolve_named :
      Dict (S → S × Outcome (Factory K A S)) → Dict (Factory K A S) → String → K → S → S × Outcome A
  resolve_named [] builtins name kwargs s = elim (Dict.get builtins name) [
    | some factory ↦ factory kwargs s
    | none ↦ (s, raised unknown_backend)
  ]
  resolve_named ((ep, load) ∷ eps) builtins name kwargs s =
      let rest = resolve_named eps builtins name kwargs s in
      if str_eq ep name then load_and_call load kwargs s else rest

  unfoldable pub resolve_provider :
      String → Name K A S → Dict (Factory K A S) → K → S → S × Outcome A
  unfolding resolve_importable resolve_named
  resolve_provider group (instance_of a) builtins kwargs s = (s, returned a)
  resolve_provider group (factory_of factory) builtins kwargs s = factory kwargs s
  resolve_provider group (name_of name) builtins kwargs s = elim (find? name ":") [
    | some i ↦ resolve_importable name i kwargs s
    | none ↦ resolve_named (x.entry_points group) builtins name kwargs s
  ]
