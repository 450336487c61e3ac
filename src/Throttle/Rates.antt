-- ===== src/Throttle/Rates.antt =====
-- throttle/base.py: `Rate.parse`.
--
-- The match of `_RATE_RE` is an argument, of which `none` is no match and else the two groups, and so
-- are `int` of the first group and `str.lower`. A second is `second` ticks.
mod Samples
use native.Mathlib.Nat.{mul-pos}
use resilience_kit.Prelude.{
  ℕ, ◌*◌, ◌<◌, String, List, [], ◌∷◌, Option, none, some, true, false, ltb, All, str_eq, subst,
  Bool-cases, Option-cases, ◌≡◌, inl, inr, arith, if◌then◌else◌,
}
use resilience_kit.Prelude.Dict
use resilience_kit.Prelude.Dict.{Dict}
use resilience_kit.Exceptions.{Exn, Outcome, returned, raised, known, validation_error}
use resilience_kit.Throttle.{Rate}

abbrev pub unit_seconds : Dict ℕ
unit_seconds =
    ("s", 1)
    ∷ ("sec", 1)
    ∷ ("second", 1)
    ∷ ("seconds", 1)
    ∷ ("m", 60)
    ∷ ("min", 60)
    ∷ ("minute", 60)
    ∷ ("minutes", 60)
    ∷ ("h", 3600)
    ∷ ("hr", 3600)
    ∷ ("hour", 3600)
    ∷ ("hours", 3600)
    ∷ ("d", 86400)
    ∷ ("day", 86400)
    ∷ ("days", 86400)
    ∷ []

abbrev pub malformed : Exn
malformed = record { cls = known validation_error; payload = 0 }

abbrev pub unknown_unit : Exn
unknown_unit = record { cls = known validation_error; payload = 1 }

abbrev pub no_count : Exn
no_count = record { cls = known validation_error; payload = 2 }

module _ (match_rate : String → Option (String × String)) (int : String → ℕ)
    (lower : String → String) (second : ℕ) where
  unfoldable pub parse : String → Outcome Rate
  parse spec = elim (match_rate spec) [
    | none ↦ raised malformed
    | some groups ↦
        let count = int groups.0 in
        elim (Dict.get unit_seconds (lower groups.1)) [
          | none ↦ raised unknown_unit
          | some seconds ↦
              if ltb 0 count
              then returned (record { count = count; per_seconds = seconds * second })
              else raised no_count
        ]
  ]

-- A value that a dictionary of positive numbers has is positive.
get_positive :
    (units : Dict ℕ) (k : String) (n : ℕ)
    → All (λ unit. 0 < unit.1) units
    → Dict.get units k ≡ some n
    → 0 < n
unfolding Dict.get
get_positive [] k n all h = ground (arith, h)
get_positive ((j, m) ∷ units) k n all h = elim (Bool-cases (str_eq j k)) [
  | inl e ↦ ground (arith, e, h, all.0)
  | inr e ↦ get_positive units k n all.1 (ground (arith, e, h))
]

units_positive : All (λ unit. 0 < unit.1) unit_seconds
units_positive = ground arith

-- A rate that parses allows at least one event, in a time that is not zero.
parse_positive :
    (match_rate : String → Option (String × String)) (int : String → ℕ) (lower : String → String)
    (second : ℕ) (spec : String) (rate : Rate)
    → 0 < second
    → parse match_rate int lower second spec ≡ returned rate
    → (0 < rate.count) × (0 < rate.per_seconds)
unfolding parse
parse_positive match_rate int lower second spec rate tick h =
    elim (Option-cases (match_rate spec)) [
      | inl k ↦ ground (arith, k, h)
      | inr (groups, k) ↦ elim (Option-cases (Dict.get unit_seconds (lower groups.1))) [
        | inl u ↦ ground (arith, k, u, h)
        | inr (seconds, u) ↦ elim (Bool-cases (ltb 0 (int groups.0))) [
          | inl c ↦
              let same : record { count = int groups.0; per_seconds = seconds * second } ≡ rate =
                ground (arith, k, u, c, h) in
              let positive = get_positive unit_seconds (lower groups.1) seconds units_positive u in
              let product : 0 < seconds * second = mul-pos positive tick in
              (
                subst (λ r. 0 < r.count) same (ground (arith, c)),
                subst (λ r. 0 < r.per_seconds) same product,
              )
          | inr c ↦ ground (arith, k, u, c, h)
        ]
      ]
    ]
