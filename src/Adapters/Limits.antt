-- ===== src/Adapters/Limits.antt =====
-- adapters/fastapi/dependencies.py: `rate_limit`; adapters/django/drf_throttles.py: `_KitThrottle`.
--
-- Both end in the same check of a throttle, any `AsyncThrottle`, at a reading of the clock. What the
-- framework knows of a request is a record.
pub mod Guarded
pub mod RetryAfter
mod Samples
use resilience_kit.Prelude.{
  ℕ, String, Bool, List, [], ◌∷◌, Option, none, some, is_empty, if◌then◌else◌,
}
use resilience_kit.Prelude.Dict
use resilience_kit.Prelude.Dict.{Dict}
use resilience_kit.Exceptions.{Exn, Outcome, returned, raised, known, key_error}
use resilience_kit.Exceptions.RateLimit.{RateLimit}
use resilience_kit.Throttle.{Rate, ThrottleDecision}
use resilience_kit.Throttle.Contract.{AsyncThrottle}
use resilience_kit.Throttle.Scopes.{
  Scope, ip, endpoint, user_tier, global, burst, auth, Attrs, build_key,
}

-- How a check ends: the handler runs, or one of two exceptions is raised.
pub data Gate : Type 0 where
  passes : Gate
  denied : RateLimit → Gate
  rejected : Exn → Gate

-- `scope.value`
abbrev pub value_of : Scope → String
value_of ip = "ip"
value_of endpoint = "endpoint"
value_of user_tier = "user_tier"
value_of global = "global"
value_of burst = "burst"
value_of auth = "auth"

abbrev pub denial : Scope → ThrottleDecision → RateLimit
denial scope d = record {
  limit = d.limit;
  remaining = d.remaining;
  reset_at = d.reset_at;
  retry_after = d.reset_after;
  scope = some (value_of scope);
}

-- `_dep`, and the body of `allow_request`.
unfoldable pub enforce : {S : Type 0} → AsyncThrottle S → Scope → Rate → Attrs → ℕ → S → S × Gate
enforce throttle scope rate attrs now s = elim (build_key scope attrs) [
  | raised e ↦ (s, rejected e)
  | returned key ↦
      let (s', decision) = throttle.check now key rate s in
      (s', if decision.allowed then passes else denied (denial scope decision))
]

pub record FastapiRequest : Type 0 where
  pub client_host : Option String
  pub url_path : String

-- `_default_attrs`
abbrev pub default_attrs : FastapiRequest → Attrs
default_attrs request =
    ("ip", request.client_host) ∷ ("endpoint", some request.url_path) ∷ ("user_tier", none) ∷ []

-- `attr_from_request or _default_attrs`
abbrev pub or_default : Option (FastapiRequest → Attrs) → FastapiRequest → Attrs
or_default none = default_attrs
or_default (some extractor) = extractor

-- `rate_limit`: the rate is parsed once, and each request is checked.
unfoldable pub rate_limit :
    {S : Type 0}
    → AsyncThrottle S
    → (String → Outcome Rate)
    → Scope
    → String
    → Option (FastapiRequest → Attrs)
    → Outcome (FastapiRequest → ℕ → S → S × Gate)
unfolding enforce
rate_limit throttle parse scope rate attr_from_request = elim (parse rate) [
  | raised e ↦ raised e
  | returned parsed ↦
      returned (λ request. enforce throttle scope parsed (or_default attr_from_request request))
]

pub record DrfRequest : Type 0 where
  -- `get_ident`
  pub ident : String
  pub tier : Option String
  -- of the view
  pub basename : Option String
  pub class_name : String

abbrev pub name_or : Option String → String → String
name_or none name = name
name_or (some base) name = if is_empty base then name else base

-- `_attrs` of the subclass for a scope.
abbrev pub drf_attrs : Scope → DrfRequest → Attrs
drf_attrs user_tier request = ("user_tier", request.tier) ∷ []
drf_attrs endpoint request = ("endpoint", some (name_or request.basename request.class_name)) ∷ []
drf_attrs global request = []
drf_attrs _ request = ("ip", some request.ident) ∷ []

abbrev pub default_rates : Dict String
default_rates =
    ("ip", "60/min")
    ∷ ("user_tier", "120/min")
    ∷ ("endpoint", "300/min")
    ∷ ("burst", "10/sec")
    ∷ ("auth", "5/min")
    ∷ []

-- `a or b`, of texts that may be absent.
abbrev pub or_else : Option String → Option String → Option String
or_else none b = b
or_else (some a) b = if is_empty a then b else some a

-- The rate of `__init__`.
unfoldable pub drf_rate :
    (String → Outcome Rate) → Option String → Dict String → Scope → Outcome Rate
drf_rate parse rate configured scope =
    elim (or_else rate
      (or_else (Dict.get configured (value_of scope)) (Dict.get default_rates (value_of scope)))) [
        | none ↦ raised (record { cls = known key_error; payload = 0 })
        | some spec ↦ parse spec
      ]

unfoldable pub allow_request :
    {S : Type 0} → AsyncThrottle S → Scope → Rate → DrfRequest → ℕ → S → S × Gate
unfolding enforce
allow_request throttle scope rate request = enforce throttle scope rate (drf_attrs scope request)
