-- ===== src/Throttle/Memory/Exact.antt =====
-- The deque of one key decides as a log of all its admissions would.
use resilience_kit.Prelude.{
  ℕ, ◌+◌, ◌≤◌, String, ◌≡◌, refl, List, [], ◌∷◌, ◌++◌, arith, leb, ltb, length, Bool-cases, inl,
  inr, if◌then◌else◌,
}
use resilience_kit.Throttle.{Rate}
use resilience_kit.Throttle.Memory.{Windows, window, expire, decide, admitted}
use resilience_kit.Throttle.Memory.Windows.{Rising, allowed_from, admitted-eq-allowed_from}

-- The number of times of a list that are not older than `per` at `now`.
pub recent : ℕ → ℕ → List ℕ → ℕ
recent per now [] = 0
recent per now (h ∷ hs) = (if leb now (h + per) then 1 else 0) + recent per now hs

-- The specification keeps every admission, and admits while fewer than `count` are recent.
pub sliding_log : Rate → List ℕ → List ℕ → List ℕ
sliding_log rate log [] = []
sliding_log rate log (now ∷ later) =
    let more = sliding_log rate (log ++ now ∷ []) later in
    let same = sliding_log rate log later in
    if ltb (recent rate.per_seconds now log) rate.count then now ∷ more else same

-- The times rise from `low` to `high`.
abbrev Between : ℕ → ℕ → List ℕ → Type 0
Between low high [] = low ≤ high
Between low high (x ∷ xs) = (low ≤ x) × Between x high xs

Between-weaken :
    (low low' high high' : ℕ) (xs : List ℕ)
    → low' ≤ low
    → high ≤ high'
    → Between low high xs
    → Between low' high' xs
Between-weaken low low' high high' [] p q h = omega arith
Between-weaken low low' high high' (x ∷ xs) p q h =
    (omega arith, Between-weaken x x high high' xs (omega arith) q h.1)

Between-append :
    (low high now : ℕ) (xs : List ℕ)
    → high ≤ now
    → Between low high xs
    → Between low now (xs ++ now ∷ [])
Between-append low high now [] p h = (omega arith, omega arith)
Between-append low high now (x ∷ xs) p h = (h.0, Between-append x high now xs p h.1)

module _ (per : ℕ) where
  Between-expire :
      (now low high : ℕ) (xs : List ℕ) → Between low high xs → Between low high (expire per now xs)
  unfolding expire
  Between-expire now low high [] h = h
  Between-expire now low high (x ∷ xs) h = elim (Bool-cases (ltb (x + per) now)) [
    | inl e ↦
        rw e (Between-weaken x low high high _ h.0 (omega arith) (Between-expire now x high xs h.1))
    | inr e ↦ rw e h
  ]

  recent-append :
      (now : ℕ) (xs ys : List ℕ) → recent per now (xs ++ ys) ≡ recent per now xs + recent per now ys
  unfolding recent
  recent-append now [] ys = omega arith
  recent-append now (x ∷ xs) ys = omega (arith, recent-append now xs ys)

  recent_all :
      (now low high : ℕ) (xs : List ℕ)
      → Between low high xs
      → now ≤ low + per
      → recent per now xs ≡ length xs
  unfolding recent
  recent_all now low high [] h le = refl
  recent_all now low high (x ∷ xs) h le = ground (arith, recent_all now x high xs h.1 (omega arith))

  -- Of a rising list, what expiry leaves is what is recent.
  length-expire :
      (now low high : ℕ) (xs : List ℕ)
      → Between low high xs
      → length (expire per now xs) ≡ recent per now xs
  unfolding recent expire
  length-expire now low high [] h = refl
  length-expire now low high (x ∷ xs) h =
      ground (arith, length-expire now x high xs h.1, recent_all now x high xs h.1)

  recent-expire :
      (now x : ℕ) (xs : List ℕ) → now ≤ x → recent per x (expire per now xs) ≡ recent per x xs
  unfolding recent expire
  recent-expire now x [] le = refl
  recent-expire now x (h ∷ hs) le = ground (arith, recent-expire now x hs le)

-- The window `w` stands for the log at `last`.
record Stands (rate : Rate) (last : ℕ) (log w : List ℕ) : Type 0 where
  rising : Between 0 last w
  agrees : (x : ℕ) → last ≤ x → recent rate.per_seconds x log ≡ recent rate.per_seconds x w

module _ (second : ℕ) (rate : Rate) where
  open rate use {count, per_seconds as per}

  Stands-expire :
      (last now : ℕ) (log w : List ℕ)
      → last ≤ now
      → Stands rate last log w
      → Stands rate now log (expire per now w)
  Stands-expire last now log w le st = record {
    rising =
        Between-expire per now 0 now w (Between-weaken 0 0 last now w (omega arith) le st.rising);
    agrees = λ x h. omega (arith, st.agrees x (omega arith), recent-expire per now x w h);
  }

  Stands-append :
      (now : ℕ) (log w : List ℕ)
      → Stands rate now log w
      → Stands rate now (log ++ now ∷ []) (w ++ now ∷ [])
  Stands-append now log w st = record {
    rising = Between-append 0 now now w (omega arith) st.rising;
    agrees = λ x h. omega (
      arith,
      st.agrees x h,
      recent-append per x log (now ∷ []),
      recent-append per x w (now ∷ []),
    );
  }

  allowed_from-eq-sliding_log :
      (times : List ℕ) (last : ℕ) (log w : List ℕ)
      → Stands rate last log w
      → Rising last times
      → allowed_from second rate w times ≡ sliding_log rate log times
  unfolding allowed_from sliding_log decide
  allowed_from-eq-sliding_log [] last log w st r = refl
  allowed_from-eq-sliding_log (now ∷ later) last log w st r =
      let kept = expire per now w in
      let st' = Stands-expire last now log w r.0 st in
      ground (
        arith,
        length-expire per now 0 last w st.rising,
        st.agrees now r.0,
        allowed_from-eq-sliding_log later now log kept st' r.1,
        allowed_from-eq-sliding_log later now (log ++ now ∷ []) (kept ++ now ∷ [])
            (Stands-append now log kept st') r.1,
      )

-- For a fresh key and checks at times that do not fall, the events admitted are exactly those that
-- a log of all admissions allows: fewer than `count` of them are at most `per_seconds` old.
pub admitted-eq-sliding_log :
    (second : ℕ) (key : String) (rate : Rate) (t : Windows) (times : List ℕ) (start : ℕ)
    → window t key ≡ []
    → Rising start times
    → admitted second key rate t times ≡ sliding_log rate [] times
admitted-eq-sliding_log second key rate t times start fresh r =
    rw (admitted-eq-allowed_from second key rate t times, fresh)
      (allowed_from-eq-sliding_log second rate times start [] []
        (record { rising = omega arith; agrees = λ x h. refl }) r)
