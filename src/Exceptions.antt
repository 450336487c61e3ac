-- ===== src/Exceptions.antt =====
-- src/resilience_kit/exceptions: the classes that the kit raises and the built-in ones that it
-- names, with Python's `issubclass`, and the table of HTTP statuses.
--
-- `Kind` lists the classes by name. A class that an application derives is `user n c`, the n-th
-- one below `c`; multiple inheritance is left out.
pub mod HttpStatus
pub mod RateLimit
mod Samples
use native.Mathlib.Decide.{ℕ_discrete}
use resilience_kit.Prelude.{
  String, Option, none, some, ◌≡◌, refl, ◌⊎◌, inl, inr, ℕ, Bool, false, ◌||◌, List, [], ◌∷◌, any,
  is_yes, if◌then◌else◌,
}

pub data Kind : Type 0 where
  base_exception cancelled_error exception : Kind
  value_error type_error lookup_error key_error : Kind
  attribute_error assertion_error runtime_error : Kind
  resilience_kit_error transient_error external_timeout_error : Kind
  external_service_error service_unavailable_error : Kind
  repository_error decryption_error missing_extra_error unknown_backend_error : Kind
  validation_error rate_limit_error : Kind

pub Kind-discrete : Discrete Kind
Kind-discrete = hlevel

-- The class and its ancestors, nearest first.
pub mro : Kind → List Kind
mro base_exception = base_exception ∷ []
mro cancelled_error = cancelled_error ∷ base_exception ∷ []
mro exception = exception ∷ base_exception ∷ []
mro key_error = key_error ∷ lookup_error ∷ exception ∷ base_exception ∷ []
mro resilience_kit_error = resilience_kit_error ∷ exception ∷ base_exception ∷ []
mro transient_error = transient_error ∷ resilience_kit_error ∷ exception ∷ base_exception ∷ []
mro external_timeout_error =
    external_timeout_error ∷ transient_error ∷ resilience_kit_error ∷ exception ∷ base_exception
    ∷ []
mro external_service_error =
    external_service_error ∷ resilience_kit_error ∷ exception ∷ base_exception ∷ []
mro service_unavailable_error =
    service_unavailable_error ∷ resilience_kit_error ∷ exception ∷ base_exception ∷ []
mro repository_error = repository_error ∷ resilience_kit_error ∷ exception ∷ base_exception ∷ []
mro decryption_error = decryption_error ∷ resilience_kit_error ∷ exception ∷ base_exception ∷ []
mro missing_extra_error =
    missing_extra_error ∷ resilience_kit_error ∷ exception ∷ base_exception ∷ []
mro unknown_backend_error =
    unknown_backend_error ∷ resilience_kit_error ∷ exception ∷ base_exception ∷ []
mro validation_error = validation_error ∷ resilience_kit_error ∷ exception ∷ base_exception ∷ []
mro rate_limit_error = rate_limit_error ∷ resilience_kit_error ∷ exception ∷ base_exception ∷ []
mro k = k ∷ exception ∷ base_exception ∷ []

pub data Cls : Type 0 where
  known : Kind → Cls
  user : ℕ → Cls → Cls

pub Cls-discrete : Discrete Cls
Cls-discrete = hlevel (ℕ_discrete, Kind-discrete)

-- `issubclass(c, d)`
unfoldable pub issubclass : Cls → Cls → Bool
unfolding mro Kind-discrete Cls-discrete
issubclass (known k) (known j) = any (λ a. is_yes (Kind-discrete a j)) (mro k)
issubclass (known k) (user m d) = false
issubclass (user n c) (known j) = issubclass c (known j)
issubclass (user n c) (user m d) =
    is_yes (Cls-discrete (user n c) (user m d)) || issubclass c (user m d)

-- `error_code`, of a class that the kit declares, or of one derived, which may set its own.
unfoldable pub error_code : (ℕ → Option String) → Cls → String
error_code own (user n c) = elim (own n) [ none ↦ error_code own c | some code ↦ code ]
error_code own (known transient_error) = "TRANSIENT_ERROR"
error_code own (known external_timeout_error) = "EXTERNAL_TIMEOUT"
error_code own (known external_service_error) = "EXTERNAL_SERVICE_ERROR"
error_code own (known service_unavailable_error) = "SERVICE_UNAVAILABLE"
error_code own (known repository_error) = "REPOSITORY_ERROR"
error_code own (known decryption_error) = "DECRYPTION_ERROR"
error_code own (known missing_extra_error) = "MISSING_EXTRA"
error_code own (known unknown_backend_error) = "UNKNOWN_BACKEND"
error_code own (known validation_error) = "VALIDATION_ERROR"
error_code own (known rate_limit_error) = "RATE_LIMIT_EXCEEDED"
error_code own (known k) = "RESILIENCE_KIT_ERROR"

-- An exception object: its class, and a number for all else that it carries.
pub record Exn : Type 0 where
  pub cls : Cls
  pub payload : ℕ

-- `isinstance(e, c)`, which is also how `except c` decides.
abbrev pub isinstance : Exn → Cls → Bool
isinstance e c = issubclass e.cls c

-- `except (c₁, c₂, …)` and `isinstance(e, (c₁, c₂, …))`
abbrev pub catches : List Cls → Exn → Bool
catches cs e = any (λ c. isinstance e c) cs

-- What a call ends with.
pub data Outcome {ℓ} (A : Type ℓ) : Type ℓ where
  returned : A → Outcome A
  raised : Exn → Outcome A

pub Outcome-cases {ℓ} :
    {A : Type ℓ} (out : Outcome A) → ((a : A) × (out ≡ returned a)) ⊎ ((e : Exn) × (out ≡ raised e))
Outcome-cases (returned a) = inl (a, refl)
Outcome-cases (raised e) = inr (e, refl)

abbrev pub http_status_map : List (Cls × ℕ)
http_status_map =
    (known validation_error, 400)
    ∷ (known rate_limit_error, 429)
    ∷ (known service_unavailable_error, 503)
    ∷ (known external_timeout_error, 504)
    ∷ (known external_service_error, 502)
    ∷ (known decryption_error, 500)
    ∷ (known repository_error, 500)
    ∷ []

-- The loop of `http_status_for` over what is left of the table.
unfoldable pub status_in : Exn → List (Cls × ℕ) → ℕ
unfolding issubclass
status_in e [] = 500
status_in e ((cls, status) ∷ rest) = if isinstance e cls then status else status_in e rest

unfoldable pub http_status_for : Exn → ℕ
unfolding status_in
http_status_for e = status_in e http_status_map
