-- ===== src/Health/Verdict.antt =====
-- What `/readyz` makes of the backends.
use resilience_kit.Prelude.{
  ℕ, Bool, true, false, List, [], ◌∷◌, any, ◌&&◌, ◌||◌, ◌⊎◌, ◌≡◌, refl, arith, inl, inr,
  if◌then◌else◌,
}
use resilience_kit.Exceptions.{Exn, returned, known, exception, isinstance}
use resilience_kit.Redis.{HealthSnapshot}
use resilience_kit.Recovery.{Recovery}
use resilience_kit.Health.{
  HealthStatus, ok, degraded_but_serving, degraded, HealthAggregate, http_status, Check, answered,
  timed_out, failed, all_healthy, unhealthy, reduce, probe, gather, health_snapshot,
}

-- A backend says in time that it is well.
abbrev pub is_well : Check → Bool
is_well (answered snapshot) = snapshot.healthy
is_well _ = false

-- What a probe keeps to itself: anything but a failure that is no Exception.
abbrev pub is_captured : Check → Bool
is_captured (failed e) = isinstance e (known exception)
is_captured _ = true

Check-cases :
    (c : Check)
    → ((s : HealthSnapshot) × (c ≡ answered s)) ⊎ (c ≡ timed_out) ⊎ ((e : Exn) × (c ≡ failed e))
Check-cases (answered s) = inl (s, refl)
Check-cases timed_out = inr (inl refl)
Check-cases (failed e) = inr (inr (e, refl))

module _ (health_check : ℕ → Check) where
  abbrev pub all_captured : List ℕ → Bool
  all_captured [] = true
  all_captured (backend ∷ backends) = is_captured (health_check backend) && all_captured backends

  abbrev pub all_well : List ℕ → Bool
  all_well [] = true
  all_well (backend ∷ backends) = is_well (health_check backend) && all_well backends

  abbrev pub any_well : List ℕ → Bool
  any_well [] = false
  any_well (backend ∷ backends) = is_well (health_check backend) || any_well backends

  probe-captured :
      (backend : ℕ)
      → is_captured (health_check backend) ≡ true
      → (s : HealthSnapshot) × (probe health_check backend ≡ returned s)
        × (s.healthy ≡ is_well (health_check backend))
  unfolding probe
  probe-captured backend h = elim (Check-cases (health_check backend)) [
    | inl (s, k) ↦ (s, ground (arith, k), ground (arith, k))
    | inr (inl k) ↦ (unhealthy backend, ground (arith, k), ground (arith, k))
    | inr (inr (e, k)) ↦ (unhealthy backend, ground (arith, k, h), ground (arith, k))
  ]

  gather-captured :
      (backends : List ℕ)
      → all_captured backends ≡ true
      → (snapshots : List HealthSnapshot) × (gather health_check backends ≡ returned snapshots)
        × (all_healthy snapshots ≡ all_well backends)
        × (any (λ s. s.healthy) snapshots ≡ any_well backends)
  unfolding gather
  gather-captured [] h = ([], refl, refl, refl)
  gather-captured (backend ∷ backends) h =
      let (s, at, well) = probe-captured backend (ground (arith, h)) in
      let (snapshots, rest, all, some_well) = gather-captured backends (ground (arith, h)) in
      (
        s ∷ snapshots,
        ground (arith, at, rest),
        ground (arith, well, all),
        ground (arith, well, some_well),
      )

  abbrev pub expected : List ℕ → HealthStatus
  expected backends =
      if all_well backends then ok else if any_well backends then degraded_but_serving else degraded

  -- 503 if there are backends and none is well.
  abbrev pub expected_status : List ℕ → ℕ
  expected_status [] = 200
  expected_status (backend ∷ backends) = if any_well (backend ∷ backends) then 200 else 503

  reduce-verdict :
      (backends : List ℕ) (snapshots : List HealthSnapshot)
      → all_healthy snapshots ≡ all_well backends
      → any (λ s. s.healthy) snapshots ≡ any_well backends
      → (reduce snapshots).status ≡ expected backends
  unfolding reduce
  reduce-verdict backends snapshots all some_well = ground (arith, all, some_well)

  verdict_at :
      {S : Type 0} (backends hooks : List ℕ) (env : S)
      → all_captured backends ≡ true
      → (a : HealthAggregate) × (health_snapshot health_check
            (record { registered = backends; warm_hooks = hooks; env = env })
          ≡ returned a)
        × (a.status ≡ expected backends)
        × (http_status a ≡ expected_status backends)
  unfolding health_snapshot http_status
  verdict_at [] hooks env h = (record { status = ok; snapshots = [] }, refl, refl, refl)
  verdict_at (backend ∷ backends) hooks env h =
      let (snapshots, at, all, some_well) = gather-captured (backend ∷ backends) h in
      let verdict = reduce-verdict (backend ∷ backends) snapshots all some_well in
      (reduce snapshots, ground (arith, at), verdict, ground (arith, verdict))

  -- Where no probe is cancelled, the aggregate is ok if all backends on the roster say in time that
  -- they are well, degraded if there are some and none does, and degraded but serving otherwise; its
  -- status is 503 exactly if there are backends and none is well.
  pub health_snapshot-verdict :
      {S : Type 0} (r : Recovery S)
      → all_captured r.registered ≡ true
      → (a : HealthAggregate) × (health_snapshot health_check r ≡ returned a)
        × (a.status ≡ expected r.registered)
        × (http_status a ≡ expected_status r.registered)
  health_snapshot-verdict r h = verdict_at r.registered r.warm_hooks r.env h
