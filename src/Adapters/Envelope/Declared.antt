-- ===== src/Adapters/Envelope/Declared.antt =====
-- What a projection writes.
use resilience_kit.Prelude.{
  String, Bool, true, false, ◌&&◌, List, [], ◌∷◌, Option, none, some, str_in, str_eq, eq_iff, ◌≡◌,
  refl, subst, arith, inl, inr, Bool-cases,
}
use resilience_kit.Prelude.Dict
use resilience_kit.Prelude.Dict.{Dict}
use resilience_kit.Exceptions.{Exn}
use resilience_kit.Middleware.Errors.{Errors}
use resilience_kit.Adapters.Envelope.{
  Value, first_match, put_fields, projections, field_if, project_onto_envelope, from_exception,
  error_code_aliases, message_aliases,
}

-- A field that is named is declared.
abbrev is_declared : List String → Option String → Bool
is_declared fields none = true
is_declared fields (some field) = str_in field fields

abbrev all_declared : List String → List (Option String × Value) → Bool
all_declared fields [] = true
all_declared fields ((target, value) ∷ steps) =
    is_declared fields target && all_declared fields steps

first_match_declared :
    (candidates fields : List String) → is_declared fields (first_match candidates fields) ≡ true
unfolding first_match
first_match_declared [] fields = refl
first_match_declared (c ∷ candidates) fields =
    let ih = first_match_declared candidates fields in
    elim (Bool-cases (str_in c fields)) [
      | inl k ↦ ground (arith, k)
      | inr k ↦ ground (arith, k, ih)
    ]

field_if_declared :
    (field : String) (fields : List String) → is_declared fields (field_if field fields) ≡ true
field_if_declared field fields = ground arith

-- A key that is neither declared nor there stays absent.
get-put_fields :
    (fields : List String) (steps : List (Option String × Value)) (out : Dict Value) (key : String)
    → all_declared fields steps ≡ true
    → str_in key fields ≡ false
    → Dict.get out key ≡ none
    → Dict.get (put_fields steps out) key ≡ none
unfolding put_fields
get-put_fields fields [] out key d u k = k
get-put_fields fields ((none, value) ∷ steps) out key d u k =
    get-put_fields fields steps out key d u k
get-put_fields fields ((some field, value) ∷ steps) out key d u k =
    let here : str_in field fields ≡ true = ground (arith, d) in
    let later : all_declared fields steps ≡ true = ground (arith, d) in
    get-put_fields fields steps (Dict.put out field value) key later u
      (elim (Bool-cases (str_eq field key)) [
        | inl same ↦
            let in_fields : str_in key fields ≡ true =
              subst (λ f. str_in f fields ≡ true) ((eq_iff field key).0 same) here in
            cc
        | inr differ ↦ ground (arith, Dict.get-put out field key value, differ, k)
      ])

-- A body that is projected onto a model has no field that the model does not declare.
from_exception-declared :
    (x : Errors) (request_id : Option String) (e : Exn) (fields : List String) (extra : Dict String)
    (key : String)
    → str_in key fields ≡ false
    → Dict.get (from_exception x request_id e (some fields) extra).0 key ≡ none
unfolding from_exception project_onto_envelope Dict.get
from_exception-declared x request_id e fields extra key u =
    get-put_fields fields (projections x request_id e fields) [] key
      (ground (
        arith,
        first_match_declared error_code_aliases fields,
        first_match_declared message_aliases fields,
        field_if_declared "errors" fields,
        field_if_declared "request_id" fields,
        field_if_declared "success" fields,
      ))
      u refl
