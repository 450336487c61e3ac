-- ===== src/Middleware/Asgi.antt =====
-- middleware/_asgi.py: what an application is given and what it sends. Header names and values are
-- texts.
use resilience_kit.Prelude.{
  ℕ, String, true, List, [], ◌∷◌, ◌++◌, Option, str_eq, ◌≡◌, ◌⊎◌, inl, inr,
}

pub record Scope : Type 0 where
  pub type_of : String
  pub method : Option String
  pub path : String
  pub headers : List (String × String)

pub data Frame : Type 0 where
  response_start : ℕ → List (String × String) → Frame
  response_body : String → Frame

abbrev pub IsHeader : String → String → List (String × String) → Type 0
IsHeader name value [] = ⊥
IsHeader name value ((other, v) ∷ headers) =
    ((str_eq other name ≡ true) × (v ≡ value)) ⊎ IsHeader name value headers

-- A response has a header of this name and value.
abbrev pub IsSent : String → String → List Frame → Type 0
IsSent name value [] = ⊥
IsSent name value (response_start status headers ∷ frames) =
    IsHeader name value headers ⊎ IsSent name value frames
IsSent name value (response_body body ∷ frames) = IsSent name value frames

pub IsHeader-append :
    (name value : String) (xs ys : List (String × String))
    → IsHeader name value (xs ++ ys)
    → IsHeader name value xs ⊎ IsHeader name value ys
IsHeader-append name value [] ys h = inr h
IsHeader-append name value ((other, v) ∷ xs) ys (inl h) = inl (inl h)
IsHeader-append name value ((other, v) ∷ xs) ys (inr h) =
    elim (IsHeader-append name value xs ys h) [ inl here ↦ inl (inr here) | inr there ↦ inr there ]
