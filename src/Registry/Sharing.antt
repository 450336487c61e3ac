-- ===== src/Registry/Sharing.antt =====
-- One breaker to a service, and none shared by two.
use resilience_kit.Prelude.{
  ℕ, ◌+◌, ◌<◌, String, ◌≡◌, ◌≢◌, ap, ◌∙◌, Option, none, some, ◌⊎◌, str_eq, if◌then◌else◌, arith,
  eq_iff, eq_refl,
}
use resilience_kit.Prelude.Dict
use resilience_kit.Prelude.Dict.{get-put, get-pop}
use resilience_kit.Exceptions.{returned}
use resilience_kit.CircuitBreaker.Memory
use resilience_kit.CircuitBreaker.Memory.{Breaker}
use resilience_kit.Registry.{
  Defaults, ServiceOverrides, Process, register_service, get_breaker, reset, write,
}

module _ {S : Type 0} where
  -- Where a service's breaker is.
  abbrev pub place : Process S → String → Option ℕ
  place p name = Dict.get p.registry.breakers name

  pub record IsSeparate (p : Process S) : Type 0 where
    pub below : (name : String) (id : ℕ) → place p name ≡ some id → id < p.next
    pub apart :
        (name other : String) (id : ℕ)
        → place p name ≡ some id
        → place p other ≡ some id
        → name ≡ other

  place-register_service :
      (name other : String) (over : ServiceOverrides) (p : Process S)
      → place (register_service name over p) other
        ≡ (if str_eq name other then none else place p other)
  unfolding register_service
  place-register_service name other over p = get-pop p.registry.breakers name other

  register_service-IsSeparate :
      (name : String) (over : ServiceOverrides) (p : Process S)
      → IsSeparate p
      → IsSeparate (register_service name over p)
  unfolding register_service
  register_service-IsSeparate name over p v = record {
    below = λ j id h. ground (arith, place-register_service name j over p, v.below j id);
    apart = λ j k id h h'. ground (
      arith,
      place-register_service name j over p,
      place-register_service name k over p,
      v.apart j k id,
    );
  }

  -- A breaker that is there, or one that is built, or none with the exception of the configuration.
  get_breaker-place :
      (d : Defaults) (name other : String) (p : Process S)
      → let (p', r) = get_breaker d name p in
        ((p'.next ≡ p.next) × (place p' other ≡ place p other))
        ⊎ ((place p name ≡ none)
            × (p'.next ≡ p.next + 1)
            × (place p' other ≡ (if str_eq name other then some p.next else place p other)))
  unfolding get_breaker
  get_breaker-place d name other p = ground (arith, get-put p.registry.breakers name other p.next)

  get_breaker-IsSeparate :
      (d : Defaults) (name : String) (p : Process S)
      → IsSeparate p
      → IsSeparate (get_breaker d name p).0
  get_breaker-IsSeparate d name p v = record {
    below = λ j id h. ground (arith, get_breaker-place d name j p, v.below j id, h);
    apart = λ j k id h h'. ground (
      arith,
      get_breaker-place d name j p,
      get_breaker-place d name k p,
      v.apart j k id,
      v.below j id,
      v.below k id,
      eq_iff name j,
      eq_iff name k,
      h,
      h',
    );
  }

  -- Every registration, every first use of a service and every reset leaves each service with a
  -- breaker of its own, at a place that is taken.
  pub registry-IsSeparate :
      (d : Defaults) (name : String) (over : ServiceOverrides) (p : Process S)
      → IsSeparate p
      → IsSeparate (get_breaker d name p).0
        × IsSeparate (register_service name over p)
        × IsSeparate (reset p)
  unfolding reset Dict.get
  registry-IsSeparate d name over p v = (
    get_breaker-IsSeparate d name p v,
    register_service-IsSeparate name over p v,
    record { below = λ j id h. ground (arith, h); apart = λ j k id h h'. ground (arith, h) },
  )

  get_breaker_found :
      (d : Defaults) (name : String) (p : Process S) (id : ℕ)
      → (get_breaker d name p).1 ≡ returned id
      → place (get_breaker d name p).0 name ≡ some id
  unfolding get_breaker
  get_breaker_found d name p id h =
      ground (arith, get-put p.registry.breakers name name p.next, eq_refl name, h)

  pub get_breaker_known :
      (d : Defaults) (name : String) (p : Process S) (id : ℕ)
      → place p name ≡ some id
      → get_breaker d name p ≡ (p, returned id)
  unfolding get_breaker
  get_breaker_known d name p id h = ground (arith, h)

  -- Once a call site has got the breaker of a service, the next one gets the same object and
  -- changes nothing, and whatever is done to that object is done to no other service's.
  get_breaker_shared :
      (d : Defaults) (name other : String) (p : Process S) (id id' : ℕ) (b : Breaker)
      → IsSeparate p
      → (get_breaker d name p).1 ≡ returned id
      → place (get_breaker d name p).0 other ≡ some id'
      → name ≢ other
      → let p' = (get_breaker d name p).0 in
        (get_breaker d name p' ≡ (p', returned id))
        × ((write id b p').heap id ≡ b)
        × ((write id b p').heap id' ≡ p'.heap id')
  get_breaker_shared d name other p id id' b v h h' ne =
      let p' = (get_breaker d name p).0 in
      let found = get_breaker_found d name p id h in
      let different : id ≢ id' = λ same.
        ne ((get_breaker-IsSeparate d name p v).apart name other id' (found ∙ ap some same) h') in
      (get_breaker_known d name p' id found, ground arith, ground (arith, different))
