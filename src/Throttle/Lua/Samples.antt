-- ===== src/Throttle/Lua/Samples.antt =====
-- The script on a list of scores, at a limit of two in ten seconds, and the theorem at it.
use resilience_kit.Prelude.{ℕ, ◌*◌, ◌≤◌, ◌≡◌, refl, List, [], ◌∷◌, none, length, filter, ltb, arith}
use resilience_kit.Throttle.Lua.{SortedSet, allowed_at, sliding_window, remove_old}
use resilience_kit.Throttle.Lua.Bound.{is_recent, allowed_at_within}

abbrev scores_alone : SortedSet (List ℕ)
scores_alone = record {
  scores = λ (s : List ℕ). s;
  zremrangebyscore = λ cutoff (s : List ℕ). filter (λ x. ltb cutoff x) s;
  zadd = λ x (s : List ℕ). x ∷ s;
  expire = λ seconds (s : List ℕ). s;
  ttl = λ s. none;
  scores-zremrangebyscore = λ cutoff s. refl;
  scores-zadd = λ x s. refl;
  scores-expire = λ seconds s. refl;
}

-- A slot is free again at the very end of the window.
allowed_at_run :
    (allowed_at scores_alone 1 2 10 (13 ∷ 12 ∷ 5 ∷ 3 ∷ 2 ∷ []) []).1 ≡ 13 ∷ 12 ∷ 3 ∷ 2 ∷ []
unfolding allowed_at sliding_window remove_old
allowed_at_run = refl

allowed_at_within_example :
    length (
      filter
        (is_recent (10 * 1) 13)
        (allowed_at scores_alone 1 2 10 (13 ∷ 12 ∷ 5 ∷ 3 ∷ 2 ∷ []) []).1)
    ≤ 2
allowed_at_within_example =
    allowed_at_within scores_alone 1 2 10 13 (12 ∷ 5 ∷ 3 ∷ 2 ∷ []) [] (omega arith) refl
      (omega arith, (omega arith, (omega arith, (omega arith, tt))))
