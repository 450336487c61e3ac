-- ===== src/Runtime/Aliases.antt =====
-- What the environment holds after a translation.
use resilience_kit.Prelude.{
  String, Bool, true, false, [], ◌∷◌, Option, none, some, str_eq, eq_iff, ◌≡◌, refl, arith, inl,
  inr, Option-cases, if◌then◌else◌,
}
use resilience_kit.Prelude.Dict
use resilience_kit.Prelude.Dict.{Dict}
use resilience_kit.Runtime.{Translation, translate_one, translate, legacy_env_alias}

-- A name is the old one of no alias.
abbrev pub is_new : String → Dict String → Bool
is_new name [] = true
is_new name ((legacy, new) ∷ aliases) =
    let rest = is_new name aliases in if str_eq name legacy then false else rest

-- No alias writes the old name of a later one.
abbrev pub is_flat : Dict String → Bool
is_flat [] = true
is_flat ((legacy, new) ∷ aliases) =
    let rest = is_flat aliases in if is_new new aliases then rest else false

-- `a`, or `b` where there is none.
abbrev pub or_else : Option String → Option String → Option String
or_else none b = b
or_else (some a) b = some a

-- The value of the first alias of `name` whose old name is set.
unfoldable pub first_legacy : Dict String → Dict String → String → Option String
first_legacy env [] name = none
first_legacy env ((legacy, new) ∷ aliases) name =
    let rest = first_legacy env aliases name in
    if str_eq new name then or_else (Dict.get env legacy) rest else rest

-- Writing under a new name leaves the old names alone.
first_legacy-put :
    (env aliases : Dict String) (new value name : String)
    → is_new new aliases ≡ true
    → first_legacy (Dict.put env new value) aliases name ≡ first_legacy env aliases name
unfolding first_legacy
first_legacy-put env [] new value name h = refl
first_legacy-put env ((legacy, other) ∷ aliases) new value name h = ground (
  arith,
  h,
  Dict.get-put env new legacy value,
  first_legacy-put env aliases new value name (ground (arith, h)),
)

translate_one-get :
    (warn : Bool) (legacy new : String) (t : Translation) (name : String)
    → Dict.get (translate_one warn legacy new t).env name ≡ (
        if str_eq new name
        then or_else (Dict.get t.env name) (Dict.get t.env legacy)
        else Dict.get t.env name)
unfolding translate_one
translate_one-get warn legacy new t name = elim (Option-cases (Dict.get t.env legacy)) [
  | inl k ↦ ground (arith, k)
  | inr (value, k) ↦ elim (Option-cases (Dict.get t.env new)) [
    | inl j ↦ ground (arith, k, j, Dict.get-put t.env new name value, eq_iff new name)
    | inr (new_val, j) ↦ ground (arith, k, j, eq_iff new name)
  ]
]

translate_one-first_legacy :
    (warn : Bool) (legacy new : String) (t : Translation) (aliases : Dict String) (name : String)
    → is_new new aliases ≡ true
    → first_legacy (translate_one warn legacy new t).env aliases name
      ≡ first_legacy t.env aliases name
unfolding translate_one
translate_one-first_legacy warn legacy new t aliases name h =
    elim (Option-cases (Dict.get t.env legacy)) [
      | inl k ↦ ground (arith, k)
      | inr (value, k) ↦ elim (Option-cases (Dict.get t.env new)) [
        | inl j ↦ ground (arith, k, j, first_legacy-put t.env aliases new value name h)
        | inr (new_val, j) ↦ ground (arith, k, j)
      ]
    ]

translate-get :
    (warn : Bool) (aliases : Dict String) (t : Translation) (name : String)
    → is_flat aliases ≡ true
    → Dict.get (translate warn aliases t).env name
      ≡ or_else (Dict.get t.env name) (first_legacy t.env aliases name)
unfolding translate first_legacy
translate-get warn [] t name h = ground arith
translate-get warn ((legacy, new) ∷ aliases) t name h =
    let later : is_flat aliases ≡ true = ground (arith, h) in
    let fresh : is_new new aliases ≡ true = ground (arith, h) in
    ground (
      arith,
      translate-get warn aliases (translate_one warn legacy new t) name later,
      translate_one-get warn legacy new t name,
      translate_one-first_legacy warn legacy new t aliases name fresh,
    )

-- Where no alias writes the old name of a later one, the translated environment has under each name
-- what was there, or else the value of the first alias of that name whose old name is set: a new
-- name that is set wins, and nothing that was set is changed.
pub legacy_env_alias-get :
    (env aliases : Dict String) (warn : Bool) (name : String)
    → is_flat aliases ≡ true
    → Dict.get (legacy_env_alias env aliases warn).env name
      ≡ or_else (Dict.get env name) (first_legacy env aliases name)
unfolding legacy_env_alias
legacy_env_alias-get env aliases warn name h =
    translate-get warn aliases (record { env = env; applied = []; warnings = [] }) name h
