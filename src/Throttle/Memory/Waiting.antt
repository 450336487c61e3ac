-- ===== src/Throttle/Memory/Waiting.antt =====
-- What a denial says of the time to wait.
use resilience_kit.Prelude.{
  ℕ, ◌+◌, ◌≤◌, ◌<◌, String, ◌≡◌, refl, sym, subst, false, List, [], ◌∷◌, arith, ltb, length,
}
use resilience_kit.Throttle.{Rate}
use resilience_kit.Throttle.Memory.{Windows, window, expire, decide, check}
use resilience_kit.Throttle.Memory.Windows.{window-check_self, length-expire-le}

-- The oldest entry that expiry leaves has not expired.
head-expire :
    (per now : ℕ) (w : List ℕ) (o : ℕ) (rest : List ℕ) → expire per now w ≡ o ∷ rest → now ≤ o + per
unfolding expire
head-expire per now [] o rest e = cc
head-expire per now (x ∷ xs) o rest e = ground (arith, head-expire per now xs o rest)

decide_later :
    (second now later : ℕ) (rate : Rate) (w kept : List ℕ)
    → expire rate.per_seconds now w ≡ kept
    → 0 < rate.count
    → length kept ≤ rate.count
    → (decide second now rate w).1.allowed ≡ false
    → (decide second later rate (decide second now rate w).0).1.allowed
      ≡ ltb (now + (decide second now rate w).1.reset_after) later
unfolding decide expire
decide_later second now later rate w [] e pos fits denied = ground arith
decide_later second now later rate w (o ∷ rest) e pos fits denied = ground (
  arith,
  head-expire rate.per_seconds now w o rest e,
  length-expire-le rate.per_seconds later rest,
)

-- Once a check is denied, with no more than `count` entries in the window, the next check of the key
-- under that rate is allowed exactly if it comes later than `reset_after` after the denied one.
pub allowed_after_denied :
    (second now later : ℕ) (key : String) (rate : Rate) (t : Windows)
    → 0 < rate.count
    → length (window t key) ≤ rate.count
    → (check second now key rate t).1.allowed ≡ false
    → (check second later key rate (check second now key rate t).0).1.allowed
      ≡ ltb (now + (check second now key rate t).1.reset_after) later
unfolding check
allowed_after_denied second now later key rate t pos fits denied =
    let w = window t key in
    let kept = expire rate.per_seconds now w in
    let shorter = length-expire-le rate.per_seconds now w in
    subst
      (λ w'.
        (decide second later rate w').1.allowed
        ≡ ltb (now + (decide second now rate w).1.reset_after) later)
      (sym (window-check_self second now key rate t))
      (decide_later second now later rate w kept refl pos (omega (arith, shorter)) denied)
