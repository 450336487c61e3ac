-- ===== src/Providers/Backends.antt =====
-- circuit_breaker/provider.py, throttle/provider.py and cache/provider.py.
--
-- The state is that of Recovery, where a Redis backend registers itself; a backend is the number of its
-- object. The classes' constructors are arguments, and so is `find_spec("redis.asyncio")`.
pub mod Registered
mod Samples
use resilience_kit.Prelude.{
  ℕ, String, Bool, List, [], ◌∷◌, Option, none, some, is_empty, str_eq, if◌then◌else◌,
}
use resilience_kit.Prelude.Dict
use resilience_kit.Prelude.Dict.{Dict}
use resilience_kit.Exceptions.{Exn, Outcome, returned, raised, known, value_error}
use resilience_kit.Recovery.{Recovery, register_for_recovery}
use resilience_kit.Providers.{Factory, Installed, name_of, resolve_provider}

-- The settings that the providers read.
pub record Settings : Type 0 where
  pub backend : String
  pub redis_url : Option String

-- `settings.redis_url and find_spec(...) is not None`
abbrev pub auto_name : Option String → Outcome Bool → Outcome String
auto_name none found = returned "memory"
auto_name (some url) found = if is_empty url then returned "memory" else (elim found [
  | raised e ↦ raised e
  | returned is_found ↦ returned (if is_found then "redis" else "memory")
])

unfoldable pub resolve_auto : Settings → Outcome Bool → Outcome String
resolve_auto c found = auto_name c.redis_url found

abbrev pub no_redis_url : Exn
no_redis_url = record { cls = known value_error; payload = 0 }

abbrev pub url_or_none : Option String → Option String
url_or_none none = none
url_or_none (some url) = if is_empty url then none else some url

-- The classes that the builtins build, the one of Redis over the client of a URL.
pub record Classes (K S : Type 0) : Type 0 where
  pub memory : Factory K ℕ (Recovery S)
  pub pybreaker : Factory K ℕ (Recovery S)
  pub redis : String → Factory K ℕ (Recovery S)

module _ {K S : Type 0} (cls : Classes K S) (c : Settings) where
  -- `_build_redis` of each of the three.
  unfoldable pub build_redis_breaker : Factory K ℕ (Recovery S)
  build_redis_breaker kwargs r = elim (url_or_none c.redis_url) [
    | none ↦ (r, raised no_redis_url)
    | some url ↦
        let (r', out) = cls.redis url kwargs r in
        elim out [
          | raised e ↦ (r', raised e)
          | returned breaker ↦ (register_for_recovery breaker r', returned breaker)
        ]
  ]

  unfoldable pub build_redis_throttle : Factory K ℕ (Recovery S)
  build_redis_throttle kwargs r = elim (url_or_none c.redis_url) [
    | none ↦ (r, raised no_redis_url)
    | some url ↦
        let (r', out) = cls.redis url kwargs r in
        elim out [
          | raised e ↦ (r', raised e)
          | returned throttle ↦ (register_for_recovery throttle r', returned throttle)
        ]
  ]

  unfoldable pub build_redis_cache : Factory K ℕ (Recovery S)
  build_redis_cache kwargs r = elim (url_or_none c.redis_url) [
    | none ↦ (r, raised no_redis_url)
    | some url ↦
        let (r', out) = cls.redis url kwargs r in
        elim out [
          | raised e ↦ (r', raised e)
          | returned cache ↦ (register_for_recovery cache r', returned cache)
        ]
  ]

  abbrev pub breaker_builtins : Dict (Factory K ℕ (Recovery S))
  breaker_builtins =
      ("memory", cls.memory) ∷ ("pybreaker", cls.pybreaker) ∷ ("redis", build_redis_breaker) ∷ []

  abbrev pub throttle_builtins : Dict (Factory K ℕ (Recovery S))
  throttle_builtins = ("memory", cls.memory) ∷ ("redis", build_redis_throttle) ∷ []

  abbrev pub cache_builtins : Dict (Factory K ℕ (Recovery S))
  cache_builtins = ("memory", cls.memory) ∷ ("redis", build_redis_cache) ∷ []

module _ {K S : Type 0} (x : Installed K ℕ (Recovery S)) (c : Settings) (found : Outcome Bool) where
  -- What the three providers do where nothing is cached.
  unfoldable pub build_backend :
      String → Dict (Factory K ℕ (Recovery S)) → K → Recovery S → Recovery S × Outcome ℕ
  unfolding resolve_auto resolve_provider
  build_backend group builtins kwargs r =
      elim (if str_eq c.backend "auto" then resolve_auto c found else returned c.backend) [
        | raised e ↦ (r, raised e)
        | returned name ↦ resolve_provider x group (name_of name) builtins kwargs r
      ]

  unfoldable pub get_breaker : Classes K S → K → Recovery S → Recovery S × Outcome ℕ
  unfolding build_backend
  get_breaker cls kwargs r =
      build_backend "resilience_kit.breaker_backends" (breaker_builtins cls c) kwargs r

  -- The variable `_default` is beside the state.
  unfoldable pub get_throttle :
      Classes K S → K → Option ℕ × Recovery S → (Option ℕ × Recovery S) × Outcome ℕ
  unfolding build_backend
  get_throttle cls kwargs (some throttle, r) = ((some throttle, r), returned throttle)
  get_throttle cls kwargs (none, r) =
      let (r', out) =
        build_backend "resilience_kit.throttle_backends" (throttle_builtins cls c) kwargs r in
      elim out [
        | raised e ↦ ((none, r'), raised e)
        | returned throttle ↦ ((some throttle, r'), returned throttle)
      ]

  -- The caches that are built are by their aliases; the keyword arguments name the alias.
  unfoldable pub get_cache :
      Classes K S → (String → K) → String → Dict ℕ × Recovery S → (Dict ℕ × Recovery S) × Outcome ℕ
  unfolding build_backend
  get_cache cls kwargs alias (caches, r) = elim (Dict.get caches alias) [
    | some cache ↦ ((caches, r), returned cache)
    | none ↦
        let (r', out) =
          build_backend "resilience_kit.cache_backends" (cache_builtins cls c) (kwargs alias) r in
        elim out [
          | raised e ↦ ((caches, r'), raised e)
          | returned cache ↦ ((Dict.put caches alias cache, r'), returned cache)
        ]
  ]

unfoldable pub reset_throttle : {S : Type 0} → Option ℕ × Recovery S → Option ℕ × Recovery S
reset_throttle (throttle, r) = (none, r)

unfoldable pub reset_cache : {S : Type 0} → Dict ℕ × Recovery S → Dict ℕ × Recovery S
reset_cache (caches, r) = ([], r)
