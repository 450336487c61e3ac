-- ===== src/Prelude/Lists.antt =====
-- Lists measured by native numbers, under the library's names, and Boolean quantifiers that run.
use Prim.Native.Nat.{ℕ, zero, suc, ◌+◌, ◌≤◌}
use mathlib.Core.Path.{◌≡◌, refl, ap₂, subst}
use mathlib.Core.Bool.{Bool, true, false, ◌||◌}
use mathlib.Core.Option.{Option, none, some}
use mathlib.Core.List.{List, [], ◌∷◌, ◌++◌, map}
use native.Mathlib.Omega.{arith}
use resilience_kit.Prelude.Tests.{if◌then◌else◌}

module _ {ℓ} {A : Type ℓ} where
  abbrev pub length : List A → ℕ
  length [] = 0
  length (x ∷ xs) = suc (length xs)

  -- `any(p(x) for x in xs)`
  abbrev pub any : (A → Bool) → List A → Bool
  any p [] = false
  any p (x ∷ xs) = p x || any p xs

  abbrev pub replicate : ℕ → A → List A
  replicate zero a = []
  replicate (suc n) a = a ∷ replicate n a

  pub length-append : (xs ys : List A) → length (xs ++ ys) ≡ length xs + length ys
  length-append [] ys = omega arith
  length-append (x ∷ xs) ys = omega (arith, length-append xs ys)

module _ {ℓ} {A : Type ℓ} where
  abbrev pub get_elem? : List A → ℕ → Option A
  get_elem? [] i = none
  get_elem? (x ∷ xs) zero = some x
  get_elem? (x ∷ xs) (suc i) = get_elem? xs i

module _ {ℓ} {A : Type ℓ} where
  pub get_elem?-append : (xs ys : List A) (x : A) → get_elem? (xs ++ x ∷ ys) (length xs) ≡ some x
  get_elem?-append [] ys x = refl
  get_elem?-append (z ∷ xs) ys x = get_elem?-append xs ys x

  pub get_elem?-length : (xs : List A) → get_elem? (xs ++ []) (length xs) ≡ none
  get_elem?-length [] = refl
  get_elem?-length (z ∷ xs) = get_elem?-length xs

  pub map_same : (g : A → A) → ((x : A) → g x ≡ x) → (xs : List A) → map g xs ≡ xs
  map_same g same [] = refl
  map_same g same (x ∷ xs) = ap₂ (λ y ys. y ∷ ys) (same x) (map_same g same xs)

-- A predicate on every element, as nested pairs.
abbrev pub All {ℓ κ} : {A : Type ℓ} → (A → Type κ) → List A → Type κ
All P [] = Unit
All P (x ∷ xs) = P x × All P xs

pub All-get_elem? {ℓ κ} :
    {A : Type ℓ} (P : A → Type κ) (xs : List A) (i : ℕ) (x : A)
    → get_elem? xs i ≡ some x
    → All P xs
    → P x
All-get_elem? P [] i x e h = cc
All-get_elem? P (y ∷ xs) zero x e h = let same : y ≡ x = cc in subst P same h.0
All-get_elem? P (y ∷ xs) (suc i) x e h = All-get_elem? P xs i x e h.1

-- `[x for x in xs if p(x)]`
abbrev pub filter {ℓ} : {A : Type ℓ} → (A → Bool) → List A → List A
filter p [] = []
filter p (x ∷ xs) = let rest = filter p xs in if p x then x ∷ rest else rest

module _ {ℓ} {A : Type ℓ} (p q : A → Bool) where
  pub filter_alike : (xs : List A) → ((x : A) → p x ≡ q x) → filter p xs ≡ filter q xs
  filter_alike [] h = refl
  filter_alike (x ∷ xs) h = ground (arith, h x, filter_alike xs h)

  -- A test that is stronger than the one before makes that one superfluous.
  pub filter-filter :
      (xs : List A) → ((x : A) → p x ≡ true → q x ≡ true) → filter p (filter q xs) ≡ filter p xs
  filter-filter [] h = refl
  filter-filter (x ∷ xs) h = ground (arith, h x, filter-filter xs h)

module _ {ℓ} {A : Type ℓ} (p : A → Bool) where
  pub filter_all : (xs : List A) → ((x : A) → p x ≡ true) → filter p xs ≡ xs
  filter_all [] h = refl
  filter_all (x ∷ xs) h = ground (arith, h x, filter_all xs h)

  pub length-filter : (xs : List A) → length (filter p xs) ≤ length xs
  length-filter [] = omega arith
  length-filter (x ∷ xs) = ground (arith, length-filter xs)

abbrev pub concat {ℓ} : {A : Type ℓ} → List (List A) → List A
concat [] = []
concat (xs ∷ xss) = xs ++ concat xss
