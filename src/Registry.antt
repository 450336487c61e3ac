-- ===== src/Registry.antt =====
-- registry.py: `ResilienceRegistry`.
--
-- Breakers are objects that every call site of a service shares, and that a call in progress keeps
-- after the registry has dropped them. So a `Process` has a heap of them, and the registry holds
-- their places in it. The breakers are the in-memory ones; `_build_breaker` is a new one. `S` is
-- all else. Settings are an argument. Locks are left out: each method is atomic.
pub mod Sharing
mod Samples
use resilience_kit.Prelude.{
  ℕ, ◌+◌, String, Bool, true, false, List, [], ◌∷◌, Option, none, some, ◌==◌, if◌then◌else◌,
}
use resilience_kit.Prelude.Dict
use resilience_kit.Prelude.Dict.{Dict}
use resilience_kit.Exceptions.{
  Cls, Exn, Outcome, returned, raised, known, transient_error, type_error, base_exception,
  issubclass,
}
use resilience_kit.Retry.Backoff.{Ratio, Jitter}
use resilience_kit.CircuitBreaker.{BreakerConfig, default_excluded_exceptions}
use resilience_kit.CircuitBreaker.Memory
use resilience_kit.CircuitBreaker.Memory.{Breaker}

pub record RetryPolicy : Type 0 where
  pub max_attempts : ℕ
  pub wait_min : ℕ
  pub wait_max : ℕ
  pub exponential_base : Ratio
  pub jitter : Jitter
  pub retry_on : List Cls

pub record ServiceConfig : Type 0 where
  pub retry : RetryPolicy
  pub circuit_breaker : BreakerConfig

-- An entry of `retry_on` as a caller may write it.
pub data RetryItem : Type 0 where
  exception_class : Cls → RetryItem
  something_else : RetryItem

pub data RetryOn : Type 0 where
  sequence : List RetryItem → RetryOn
  no_sequence : RetryOn

-- The keys of the two sub-dictionaries, each there or not.
pub record ServiceOverrides : Type 0 where
  pub max_attempts : Option ℕ
  pub wait_min : Option ℕ
  pub wait_max : Option ℕ
  pub exponential_base : Option Ratio
  pub jitter : Option Jitter
  pub retry_on : Option RetryOn
  pub fail_max : Option ℕ
  pub reset_timeout : Option ℕ
  pub success_threshold : Option ℕ
  pub excluded_exceptions : Option (List Cls)

abbrev pub no_overrides : ServiceOverrides
no_overrides = record {
  max_attempts = none;
  wait_min = none;
  wait_max = none;
  exponential_base = none;
  jitter = none;
  retry_on = none;
  fail_max = none;
  reset_timeout = none;
  success_threshold = none;
  excluded_exceptions = none;
}

-- `settings.defaults`
pub record Defaults : Type 0 where
  pub max_attempts : ℕ
  pub wait_min : ℕ
  pub wait_max : ℕ
  pub exponential_base : Ratio
  pub jitter : Jitter
  pub fail_max : ℕ
  pub reset_timeout : ℕ
  pub success_threshold : ℕ

pub record Registry : Type 0 where
  pub overrides : Dict ServiceOverrides
  pub breakers : Dict ℕ

pub record Process (S : Type 0) : Type 0 where
  pub registry : Registry
  pub heap : ℕ → Breaker
  -- the first place of the heap that is free
  pub next : ℕ
  pub env : S

abbrev pub get_or : {A : Type 0} → Option A → A → A
get_or none a = a
get_or (some b) a = b

abbrev pub a_type_error : Exn
a_type_error = record { cls = known type_error; payload = 0 }

-- The loop of `_normalise_retry_on`.
unfoldable pub exception_classes : List RetryItem → Outcome (List Cls)
exception_classes [] = returned []
exception_classes (something_else ∷ items) = raised a_type_error
exception_classes (exception_class c ∷ items) =
    let rest = exception_classes items in
    if issubclass c (known base_exception)
    then elim rest [ returned cs ↦ returned (c ∷ cs) | raised e ↦ raised e ]
    else raised a_type_error

unfoldable pub normalise_retry_on : Option RetryOn → Outcome (List Cls)
unfolding exception_classes
normalise_retry_on none = returned (known transient_error ∷ [])
normalise_retry_on (some no_sequence) = raised a_type_error
normalise_retry_on (some (sequence items)) = exception_classes items

-- The fields of a service, its overrides over the defaults.
unfoldable pub merged : Defaults → ServiceOverrides → List Cls → ServiceConfig
merged d over retry_on = record {
  retry = record {
    max_attempts = get_or over.max_attempts d.max_attempts;
    wait_min = get_or over.wait_min d.wait_min;
    wait_max = get_or over.wait_max d.wait_max;
    exponential_base = get_or over.exponential_base d.exponential_base;
    jitter = get_or over.jitter d.jitter;
    retry_on = retry_on;
  };
  circuit_breaker = record {
    fail_max = get_or over.fail_max d.fail_max;
    reset_timeout = get_or over.reset_timeout d.reset_timeout;
    success_threshold = get_or over.success_threshold d.success_threshold;
    excluded_exceptions = get_or over.excluded_exceptions default_excluded_exceptions;
  };
}

unfoldable pub get_config : Defaults → String → Registry → Outcome ServiceConfig
unfolding normalise_retry_on merged
get_config d name r =
    let over = get_or (Dict.get r.overrides name) no_overrides in
    elim (normalise_retry_on over.retry_on) [
      | raised e ↦ raised e
      | returned retry_on ↦ returned (merged d over retry_on)
    ]

abbrev pub new_registry : Registry
new_registry = record { overrides = []; breakers = [] }

unfoldable pub register_service : {S : Type 0} → String → ServiceOverrides → Process S → Process S
register_service name over p = record p {
  registry = record {
    overrides = Dict.put p.registry.overrides name over;
    breakers = Dict.pop p.registry.breakers name;
  };
}

abbrev pub write : {S : Type 0} → ℕ → Breaker → Process S → Process S
write id b p = record p { heap = λ j. if j == id then b else p.heap j }

-- The place of the breaker; a new one that cannot be built leaves nothing behind.
unfoldable pub get_breaker : {S : Type 0} → Defaults → String → Process S → Process S × Outcome ℕ
unfolding get_config Memory.new
get_breaker d name p = elim (Dict.get p.registry.breakers name) [
  | some id ↦ (p, returned id)
  | none ↦ elim (get_config d name p.registry) [
    | raised e ↦ (p, raised e)
    | returned config ↦ (
      record (write p.next (Memory.new config.circuit_breaker) p) {
        registry = record (p.registry) { breakers = Dict.put p.registry.breakers name p.next };
        next = p.next + 1;
      },
      returned p.next,
    )
  ]
]

unfoldable pub reset : {S : Type 0} → Process S → Process S
reset p = record p { registry = new_registry }
