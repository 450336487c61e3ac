-- ===== src/Throttle/Memory/Windows.antt =====
-- One key's window: what `check` and `reset` do to it and to the others, and what expiry keeps.
use resilience_kit.Prelude.{
  ℕ, ◌+◌, ◌≤◌, ◌<◌, String, ◌≡◌, ◌≢◌, refl, ◌&&◌, List, [], ◌∷◌, ◌++◌, arith, leb, length, All,
  if◌then◌else◌, str_eq, eq_iff, eq_refl,
}
use resilience_kit.Prelude.Dict
use resilience_kit.Throttle.{Rate}
use resilience_kit.Throttle.Memory.{Windows, window, expire, decide, check, reset, admitted}

window-put :
    (t : Windows) (k j : String) (w : List ℕ)
    → window (Dict.put t k w) j ≡ (if str_eq k j then w else window t j)
window-put t k j w = ground (arith, Dict.get-put t k j w)

pub window-check_self :
    (second now : ℕ) (key : String) (rate : Rate) (t : Windows)
    → window (check second now key rate t).0 key ≡ (decide second now rate (window t key)).0
unfolding check
window-check_self second now key rate t =
    ground (arith, window-put t key key (decide second now rate (window t key)).0, eq_refl key)

pub window-check_decision :
    (second now : ℕ) (key : String) (rate : Rate) (t : Windows)
    → (check second now key rate t).1 ≡ (decide second now rate (window t key)).1
unfolding check
window-check_decision second now key rate t = refl

pub window-check_other :
    (second now : ℕ) (key other : String) (rate : Rate) (t : Windows)
    → key ≢ other
    → window (check second now key rate t).0 other ≡ window t other
unfolding check
window-check_other second now key other rate t h =
    ground
      (arith, window-put t key other (decide second now rate (window t key)).0, eq_iff key other)

-- A check of one key and a reset of it leave the window of every other key as it is, and a reset
-- empties the window of its own.
windows_independent :
    (second now : ℕ) (key other : String) (rate : Rate) (t : Windows)
    → key ≢ other
    → (window (check second now key rate t).0 other ≡ window t other)
      × (window (reset key t) other ≡ window t other)
      × (window (reset key t) key ≡ [])
unfolding check reset
windows_independent second now key other rate t h = ground (
  arith,
  window-put t key other (decide second now rate (window t key)).0,
  Dict.get-pop t key other,
  Dict.get-pop t key key,
  eq_iff key other,
  eq_refl key,
)

-- The number of times of a list that lie in the closed interval from `a` to `a + per`.
unfoldable pub count_in : ℕ → ℕ → List ℕ → ℕ
count_in per a [] = 0
count_in per a (h ∷ hs) = (if leb a h && leb h (a + per) then 1 else 0) + count_in per a hs

module _ (per a : ℕ) where
  pub count_in-append :
      (xs ys : List ℕ) → count_in per a (xs ++ ys) ≡ count_in per a xs + count_in per a ys
  unfolding count_in
  count_in-append [] ys = omega arith
  count_in-append (x ∷ xs) ys = omega (arith, count_in-append xs ys)

  pub count_in-le-length : (xs : List ℕ) → count_in per a xs ≤ length xs
  unfolding count_in
  count_in-le-length [] = omega arith
  count_in-le-length (x ∷ xs) = ground (arith, count_in-le-length xs)

  -- Nothing that expiry drops at `now` lies in an interval that reaches `now`.
  pub count_in-expire :
      (now : ℕ) (w : List ℕ) → now ≤ a + per → count_in per a (expire per now w) ≡ count_in per a w
  unfolding count_in expire
  count_in-expire now [] h = refl
  count_in-expire now (x ∷ xs) h = ground (arith, count_in-expire now xs h)

  -- The times are all `now` or later.
  pub count_in_future :
      (now : ℕ) (w : List ℕ) → All (λ h. now ≤ h) w → a + per < now → count_in per a w ≡ 0
  unfolding count_in
  count_in_future now [] all h = refl
  count_in_future now (x ∷ xs) all h = ground (arith, count_in_future now xs all.1 h)

pub length-expire-le : (per now : ℕ) (w : List ℕ) → length (expire per now w) ≤ length w
unfolding expire
length-expire-le per now [] = omega arith
length-expire-le per now (x ∷ xs) = ground (arith, length-expire-le per now xs)

-- The times of a list do not fall, and none is before `start`.
abbrev pub Rising : ℕ → List ℕ → Type 0
Rising start [] = Unit
Rising start (t ∷ ts) = (start ≤ t) × Rising t ts

-- The checks of one key, by its window alone.
unfoldable pub allowed_from : ℕ → Rate → List ℕ → List ℕ → List ℕ
allowed_from second rate w [] = []
allowed_from second rate w (now ∷ later) =
    let (w', decision) = decide second now rate w in
    let rest = allowed_from second rate w' later in if decision.allowed then now ∷ rest else rest

pub admitted-eq-allowed_from :
    (second : ℕ) (key : String) (rate : Rate) (t : Windows) (times : List ℕ)
    → admitted second key rate t times ≡ allowed_from second rate (window t key) times
unfolding admitted allowed_from
admitted-eq-allowed_from second key rate t [] = refl
admitted-eq-allowed_from second key rate t (now ∷ later) = ground (
  arith,
  admitted-eq-allowed_from second key rate (check second now key rate t).0 later,
  window-check_self second now key rate t,
)
