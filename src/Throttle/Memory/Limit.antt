-- ===== src/Throttle/Memory/Limit.antt =====
-- The promise of a rate: no interval of its length holds more events than its count.
use native.Mathlib.Decide.{dec_le}
use resilience_kit.Prelude.{
  ℕ, ◌+◌, ◌≤◌, String, ◌≡◌, List, [], ◌∷◌, ◌++◌, arith, length, length-append, Bool-cases, inl, inr,
  All, if◌then◌else◌,
}
use resilience_kit.Throttle.{Rate}
use resilience_kit.Throttle.Memory.{Windows, window, expire, decide, admitted}
use resilience_kit.Throttle.Memory.Windows.{
  count_in, count_in-append, count_in-le-length, count_in-expire, count_in_future, length-expire-le,
  Rising, allowed_from, admitted-eq-allowed_from,
}

All-ge : (xs : List ℕ) (a b : ℕ) → a ≤ b → All (λ h. b ≤ h) xs → All (λ h. a ≤ h) xs
All-ge [] a b le all = tt
All-ge (x ∷ xs) a b le all = (omega arith, All-ge xs a b le all.1)

module _ (second : ℕ) (rate : Rate) where
  open rate use {count, per_seconds as per}

  length-decide :
      (now : ℕ) (w : List ℕ) → length w ≤ count → length (decide second now rate w).0 ≤ count
  unfolding decide
  length-decide now w h =
      let kept = expire per now w in
      ground (arith, length-expire-le per now w, length-append kept (now ∷ []))

  -- No admission is before the start of the checks.
  allowed_from-ge :
      (w times : List ℕ) (start : ℕ)
      → Rising start times
      → All (λ h. start ≤ h) (allowed_from second rate w times)
  unfolding allowed_from
  allowed_from-ge w [] start r = tt
  allowed_from-ge w (now ∷ later) start r =
      let w' = (decide second now rate w).0 in
      let ih = All-ge _ start now r.0 (allowed_from-ge w' later now r.1) in
      elim (Bool-cases (decide second now rate w).1.allowed) [
        | inl e ↦ rw e (r.0, ih)
        | inr e ↦ rw e ih
      ]

  -- The window after a decision, with the events to come, counts as the window before it does with
  -- this event, in an interval that reaches `now`.
  count_in-decide :
      (a now : ℕ) (w rest : List ℕ)
      → now ≤ a + per
      → count_in per a (w ++ (if (decide second now rate w).1.allowed then now ∷ rest else rest))
        ≡ count_in per a ((decide second now rate w).0 ++ rest)
  unfolding decide count_in
  count_in-decide a now w rest h =
      let kept = expire per now w in
      ground (
        arith,
        count_in-append per a w (now ∷ rest),
        count_in-append per a w rest,
        count_in-append per a (kept ++ now ∷ []) rest,
        count_in-append per a kept (now ∷ []),
        count_in-append per a kept rest,
        count_in-expire per a now w h,
      )

  pub count_in-allowed_from :
      (a : ℕ) (w times : List ℕ) (start : ℕ)
      → length w ≤ count
      → Rising start times
      → count_in per a (w ++ allowed_from second rate w times) ≤ count
  unfolding allowed_from count_in
  count_in-allowed_from a w [] start h r =
      omega (arith, count_in-append per a w [], count_in-le-length per a w)
  count_in-allowed_from a w (now ∷ later) start h r = elim (dec_le now (a + per)) [
    | yes le ↦
        let w' = (decide second now rate w).0 in
        rw (count_in-decide a now w (allowed_from second rate w' later) le)
          (count_in-allowed_from a w' later now (length-decide now w h) r.1)
    | no gt ↦
        let events = allowed_from second rate w (now ∷ later) in
        omega (
          arith,
          count_in-append per a w events,
          count_in-le-length per a w,
          count_in_future per a now events (allowed_from-ge w (now ∷ later) now (omega arith, r.1))
              (omega arith),
        )
  ]

-- For checks of a fresh key at times that do not fall, and whatever `a`, at most `count` of the
-- admitted events lie in the closed interval from `a` to `a + per_seconds`.
pub admitted_within_rate :
    (second : ℕ) (key : String) (rate : Rate) (t : Windows) (times : List ℕ) (a start : ℕ)
    → window t key ≡ []
    → Rising start times
    → count_in rate.per_seconds a (admitted second key rate t times) ≤ rate.count
admitted_within_rate second key rate t times a start fresh r =
    rw (admitted-eq-allowed_from second key rate t times, fresh)
      (count_in-allowed_from second rate a [] times start (omega arith) r)
