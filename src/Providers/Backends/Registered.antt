-- ===== src/Providers/Backends/Registered.antt =====
-- Which backends are on the roster, and how often they are built.
use resilience_kit.Prelude.{
  ℕ, String, Bool, true, false, is_empty, none, List, [], ◌∷◌, ◌++◌, some, Option-cases, Bool-cases,
  any, ◌==◌, str_eq, eq_iff, eq_refl, inl, inr, sym, subst, ◌≡◌, refl, arith, if◌then◌else◌,
}
use resilience_kit.Prelude.Dict
use resilience_kit.Prelude.Dict.{Dict}
use resilience_kit.Exceptions.{Outcome, returned, Outcome-cases}
use resilience_kit.Recovery.{Recovery, register_for_recovery}
use resilience_kit.Providers.{Factory, Installed, resolve_named, resolve_provider}
use resilience_kit.Providers.Backends.{
  Settings, resolve_auto, Classes, build_redis_breaker, build_redis_throttle, build_redis_cache,
  breaker_builtins, throttle_builtins, cache_builtins, build_backend, get_breaker, get_throttle,
  get_cache,
}

abbrev pub on_roster : {S : Type 0} → ℕ → Recovery S → Bool
on_roster backend r = any (λ other. other == backend) r.registered

any_last : (backend : ℕ) (xs : List ℕ) → any (λ other. other == backend) (xs ++ backend ∷ []) ≡ true
any_last backend [] = ground arith
any_last backend (x ∷ xs) = ground (arith, any_last backend xs)

register_for_recovery-on_roster :
    {S : Type 0} (backend : ℕ) (r : Recovery S)
    → on_roster backend (register_for_recovery backend r) ≡ true
unfolding register_for_recovery
register_for_recovery-on_roster backend r = elim (Bool-cases (on_roster backend r)) [
  | inl k ↦ ground (arith, k)
  | inr k ↦ ground (arith, k, any_last backend r.registered)
]

module _ {K A S : Type 0} (x : Installed K A S) where
  -- A builtin whose name no entry point has.
  resolve_named-builtin :
      (eps : Dict (S → S × Outcome (Factory K A S))) (builtins : Dict (Factory K A S))
      (name : String) (factory : Factory K A S) (kwargs : K) (s : S)
      → Dict.get eps name ≡ none
      → Dict.get builtins name ≡ some factory
      → resolve_named x eps builtins name kwargs s ≡ factory kwargs s
  unfolding resolve_named Dict.get
  resolve_named-builtin [] builtins name factory kwargs s h k = ground (arith, k)
  resolve_named-builtin ((ep, load) ∷ eps) builtins name factory kwargs s h k =
      ground (arith, h, k, resolve_named-builtin eps builtins name factory kwargs s)

module _ {K S : Type 0} (x : Installed K ℕ (Recovery S)) (c : Settings) where
  -- The builtin of Redis is what `auto` takes, with a URL and the package at hand.
  auto-redis :
      (group url : String) (builtins : Dict (Factory K ℕ (Recovery S)))
      (factory : Factory K ℕ (Recovery S)) (kwargs : K) (r : Recovery S)
      → c.backend ≡ "auto"
      → c.redis_url ≡ some url
      → is_empty url ≡ false
      → Dict.get (x.entry_points group) "redis" ≡ none
      → Dict.get builtins "redis" ≡ some factory
      → build_backend x c (returned true) group builtins kwargs r ≡ factory kwargs r
  unfolding build_backend resolve_auto resolve_provider
  auto-redis group url builtins factory kwargs r auto at full apart builtin = ground (
    arith,
    subst (λ b. str_eq b "auto" ≡ true) (sym auto) refl,
    at,
    full,
    resolve_named-builtin x (x.entry_points group) builtins "redis" factory kwargs r apart builtin,
  )

module _ {K S : Type 0} (cls : Classes K S) (c : Settings) where
  -- Where the backend is auto, a URL is set, the package is found and no entry point is named redis:
  -- each of the three providers, with nothing cached, returns what the constructor of its Redis
  -- class makes at that URL, and it is on the roster that the recovery monitor probes.
  pub auto-on_roster :
      (x : Installed K ℕ (Recovery S)) (url alias : String) (kwargs : String → K)
      (r r' : Recovery S) (backend : ℕ)
      → c.backend ≡ "auto"
      → c.redis_url ≡ some url
      → is_empty url ≡ false
      → ((group : String) → Dict.get (x.entry_points group) "redis" ≡ none)
      → cls.redis url (kwargs alias) r ≡ (r', returned backend)
      → let after = register_for_recovery backend r' in
        (get_breaker x c (returned true) cls (kwargs alias) r ≡ (after, returned backend))
        × (get_throttle x c (returned true) cls (kwargs alias) (none, r)
            ≡ ((some backend, after), returned backend))
        × (get_cache x c (returned true) cls kwargs alias ([], r)
            ≡ ((Dict.put [] alias backend, after), returned backend))
        × (on_roster backend after ≡ true)
  unfolding get_breaker get_throttle get_cache build_redis_breaker build_redis_throttle
      build_redis_cache Dict.get
  auto-on_roster x url alias kwargs r r' backend auto at full apart made =
      let breakers : String = "resilience_kit.breaker_backends" in
      let throttles : String = "resilience_kit.throttle_backends" in
      let caches : String = "resilience_kit.cache_backends" in
      let arg = kwargs alias in
      (
        ground (
          arith,
          at,
          full,
          made,
          auto-redis x c breakers url (breaker_builtins cls c) (build_redis_breaker cls c) arg r
              auto at full (apart breakers) refl,
        ),
        ground (
          arith,
          at,
          full,
          made,
          auto-redis x c throttles url (throttle_builtins cls c) (build_redis_throttle cls c) arg r
              auto at full (apart throttles) refl,
        ),
        ground (
          arith,
          at,
          full,
          made,
          auto-redis x c caches url (cache_builtins cls c) (build_redis_cache cls c) arg r auto at
              full (apart caches) refl,
        ),
        register_for_recovery-on_roster backend r',
      )

  get_cache-cached :
      (x : Installed K ℕ (Recovery S)) (found : Outcome Bool) (kwargs : String → K) (alias : String)
      (st : Dict ℕ × Recovery S) (cache : ℕ)
      → Dict.get st.0 alias ≡ some cache
      → get_cache x c found cls kwargs alias st ≡ (st, returned cache)
  unfolding get_cache
  get_cache-cached x found kwargs alias (caches, r) cache k = ground (arith, k)

  get_cache-stored :
      (x : Installed K ℕ (Recovery S)) (found : Outcome Bool) (kwargs : String → K)
      (alias other : String) (st st' : Dict ℕ × Recovery S) (cache : ℕ)
      → get_cache x c found cls kwargs alias st ≡ (st', returned cache)
      → Dict.get st'.0 other ≡ (if str_eq alias other then some cache else Dict.get st.0 other)
  unfolding get_cache
  get_cache-stored x found kwargs alias other (caches, r) st' cache h =
      let built =
        build_backend x c found "resilience_kit.cache_backends" (cache_builtins cls c)
          (kwargs alias) r in
      elim (Option-cases (Dict.get caches alias)) [
        | inr (b, k) ↦ ground (arith, k, h, eq_iff alias other)
        | inl k ↦ elim (Outcome-cases built.1) [
          | inl (b, j) ↦ ground (arith, k, j, h, Dict.get-put caches alias other b)
          | inr (e, j) ↦ ground (arith, k, j, h)
        ]
      ]

  -- A cache is built once for an alias: once it has been returned, it is returned again, whatever
  -- other arguments come, nothing is built or registered for that, and the caches of other aliases stay.
  get_cache-once :
      (x : Installed K ℕ (Recovery S)) (found later : Outcome Bool) (kwargs kwargs' : String → K)
      (alias other : String) (st st' : Dict ℕ × Recovery S) (cache : ℕ)
      → get_cache x c found cls kwargs alias st ≡ (st', returned cache)
      → (get_cache x c later cls kwargs' alias st' ≡ (st', returned cache))
        × (Dict.get st'.0 other ≡ (if str_eq alias other then some cache else Dict.get st.0 other))
  get_cache-once x found later kwargs kwargs' alias other st st' cache h =
      let own = get_cache-stored x found kwargs alias alias st st' cache h in
      (
        get_cache-cached x later kwargs' alias st' cache (ground (arith, own, eq_refl alias)),
        get_cache-stored x found kwargs alias other st st' cache h,
      )
