-- ===== src/Recovery/Hooks.antt =====
-- A tick against plain loops over the roster and the hooks, and that its loops end.
use mathlib.Core.List.{append_assoc}
use resilience_kit.Prelude.{
  sym, ℕ-cases, get_elem?-append, get_elem?-length, ℕ, zero, suc, ◌+◌, ◌<◌, Bool, true, List, [],
  ◌∷◌, ◌++◌, none, some, length, length-append, get_elem?, ◌==◌, if◌then◌else◌, ◌≡◌, refl, ap,
  subst, ◌∙◌, inl, inr, Option-cases, Bool-cases, arith,
}
use resilience_kit.Exceptions.{
  Exn, Outcome, returned, raised, known, exception, isinstance, Outcome-cases,
}
use resilience_kit.Recovery.{Recovery, Backends, probe_all, run_hooks, attempt_recover_all}

module _ {S : Type 0} (b : Backends S) where
  -- The state once each backend has been probed, in the roster's order.
  unfoldable pub probed : List ℕ → Recovery S → Recovery S
  probed [] r = r
  probed (backend ∷ backends) r = probed backends (b.try_recover backend r).0

  abbrev pub says_true : Outcome Bool → ℕ
  says_true (returned true) = 1
  says_true _ = 0

  -- How many of the probes return `True`.
  unfoldable pub recoveries : List ℕ → Recovery S → ℕ
  recoveries [] r = 0
  recoveries (backend ∷ backends) r =
      says_true (b.try_recover backend r).1 + recoveries backends (b.try_recover backend r).0

  -- The state once each hook has run, in order.
  unfoldable pub warmed : List ℕ → Recovery S → Recovery S
  warmed [] r = r
  warmed (hook ∷ hooks) r = warmed hooks (b.hook hook r).0

  -- No task is cancelled, and no probe and no hook changes the list of the hooks.
  pub record IsTame : Type 0 where
    pub probe_exceptions :
        (i : ℕ) (r : Recovery S) (e : Exn)
        → (b.try_recover i r).1 ≡ raised e
        → isinstance e (known exception) ≡ true
    pub hook_exceptions :
        (i : ℕ) (r : Recovery S) (e : Exn)
        → (b.hook i r).1 ≡ some e
        → isinstance e (known exception) ≡ true
    pub probe_keeps : (i : ℕ) (r : Recovery S) → (b.try_recover i r).0.warm_hooks ≡ r.warm_hooks
    pub hook_keeps : (i : ℕ) (r : Recovery S) → (b.hook i r).0.warm_hooks ≡ r.warm_hooks

  probe_all-probed :
      (backends : List ℕ) (n : ℕ) (r : Recovery S)
      → IsTame
      → probe_all b backends n r ≡ (probed backends r, returned (n + recoveries backends r))
  unfolding probe_all probed recoveries
  probe_all-probed [] n r tame = ground arith
  probe_all-probed (backend ∷ backends) n r tame =
      let (r', out) = b.try_recover backend r in
      elim (Outcome-cases out) [
        | inl (flipped, k) ↦ elim (Bool-cases flipped) [
          | inl t ↦ ground (arith, k, t, probe_all-probed backends (n + 1) r' tame)
          | inr f ↦ ground (arith, k, f, probe_all-probed backends n r' tame)
        ]
        | inr (e, k) ↦
            ground
              (arith, k, tame.probe_exceptions backend r e k, probe_all-probed backends n r' tame)
      ]

  probed-warm_hooks :
      (backends : List ℕ) (r : Recovery S) → IsTame → (probed backends r).warm_hooks ≡ r.warm_hooks
  unfolding probed
  probed-warm_hooks [] r tame = refl
  probed-warm_hooks (backend ∷ backends) r tame =
      probed-warm_hooks backends (b.try_recover backend r).0 tame ∙ tame.probe_keeps backend r

  run_hooks-warmed :
      (fuel : ℕ) (done hooks : List ℕ) (r : Recovery S)
      → IsTame
      → r.warm_hooks ≡ done ++ hooks
      → length hooks < fuel
      → run_hooks b fuel (length done) r ≡ some (warmed hooks r, none)
  unfolding run_hooks warmed
  run_hooks-warmed zero done hooks r tame same h = ground (arith, h)
  run_hooks-warmed (suc fuel) done [] r tame same h =
      ground (arith, ap (λ xs. get_elem? xs (length done)) same ∙ get_elem?-length done)
  run_hooks-warmed (suc fuel) done (hook ∷ hooks) r tame same h =
      let (r', x) = b.hook hook r in
      let at = ap (λ xs. get_elem? xs (length done)) same ∙ get_elem?-append done hooks hook in
      let same' = tame.hook_keeps hook r ∙ same ∙ sym (append_assoc done (hook ∷ []) hooks) in
      let rest = run_hooks-warmed fuel (done ++ hook ∷ []) hooks r' tame same' (omega (arith, h)) in
      let next : length (done ++ hook ∷ []) ≡ length done + 1 = length-append done (hook ∷ []) in
      let rest' = subst (λ i. run_hooks b fuel i r' ≡ some (warmed hooks r', none)) next rest in
      elim (Option-cases x) [
        | inl k ↦ ground (arith, at, k, rest')
        | inr (e, k) ↦ ground (arith, at, k, tame.hook_exceptions hook r e k, rest')
      ]

  -- A tick ends, with fuel above the number of hooks, and raises nothing: each backend on the roster
  -- is probed once, in order, the number of probes that returned `True` is the result, and each hook
  -- runs once, in order, exactly if that is not zero. No task is cancelled, and no probe and no hook
  -- changes the list of the hooks.
  pub attempt_recover_all-warmed :
      (fuel : ℕ) (r : Recovery S)
      → IsTame
      → length r.warm_hooks < fuel
      → let n = recoveries r.registered r in
        let r' = probed r.registered r in
        attempt_recover_all b fuel r
        ≡ some ((if n == 0 then r' else warmed r.warm_hooks r'), returned n)
  unfolding attempt_recover_all
  attempt_recover_all-warmed fuel r tame h =
      let n = recoveries r.registered r in
      let r' = probed r.registered r in
      let kept = probed-warm_hooks r.registered r tame in
      let all = probe_all-probed r.registered 0 r tame in
      let hooks = run_hooks-warmed fuel [] r.warm_hooks r' tame kept h in
      elim (ℕ-cases n) [
        | inl k ↦
            let count : 0 + n ≡ 0 = omega (arith, k) in
            let all' : probe_all b r.registered 0 r ≡ (r', returned 0) =
              all ∙ ap (λ i. (r', returned i)) count in
            ground (arith, all', k)
        | inr (m, k) ↦
            let count : 0 + n ≡ suc m = omega (arith, k) in
            let all' : probe_all b r.registered 0 r ≡ (r', returned (suc m)) =
              all ∙ ap (λ i. (r', returned i)) count in
            ground (arith, all', k, hooks)
      ]
