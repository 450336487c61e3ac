-- ===== src/Throttle/Lua/Bound.antt =====
-- The bound of the sliding window on the server.
use resilience_kit.Prelude.{
  ℕ, ◌+◌, ◌-◌, ◌*◌, ◌==◌, if◌then◌else◌, ◌≤◌, ◌<◌, ◌≡◌, ap, ◌∙◌, Bool, true, List, [], ◌∷◌, length,
  filter, filter-filter, filter_alike, filter_all, length-filter, subst, Bool-cases, inl, inr, ltb,
  arith,
}
use resilience_kit.Throttle.Lua.{SortedSet, remove_old, sliding_window, allowed_at}

-- The times are in order, the latest first.
abbrev pub InOrder : List ℕ → Type 0
InOrder [] = Unit
InOrder (now ∷ []) = Unit
InOrder (now ∷ before ∷ earlier) = (before ≤ now) × InOrder (before ∷ earlier)

-- Less than a window ago.
abbrev pub is_recent : ℕ → ℕ → ℕ → Bool
is_recent span now x = ltb now (x + span)

module _ {S : Type 0} (set : SortedSet S) (second limit window : ℕ) where
  scores-remove_old :
      (now : ℕ) (s : S)
      → set.scores (remove_old set second limit window now s)
        ≡ filter (is_recent (window * second) now) (set.scores s)
  unfolding remove_old
  scores-remove_old now s = elim (Bool-cases (ltb now (window * second))) [
    | inl early ↦
        let recent : (x : ℕ) → is_recent (window * second) now x ≡ true = λ x. ground arith in
        ground (arith, early, filter_all (is_recent (window * second) now) (set.scores s) recent)
    | inr late ↦
        let same : (x : ℕ) → ltb (now - window * second) x ≡ is_recent (window * second) now x =
          λ x. ground arith in
        ground (
          arith,
          late,
          set.scores-zremrangebyscore (now - window * second) s,
          filter_alike (λ x. ltb (now - window * second) x) (is_recent (window * second) now)
              (set.scores s) same,
        )
  ]

  -- After the check at a time, the set holds the times allowed less than a window ago.
  record Tracks (now : ℕ) (s : S) (log : List ℕ) : Type 0 where
    scores : set.scores s ≡ filter (is_recent (window * second) now) log
    within : length (set.scores s) ≤ limit

  recent-recent :
      (before now : ℕ) (log : List ℕ)
      → before ≤ now
      → filter (is_recent (window * second) now) (filter (is_recent (window * second) before) log)
        ≡ filter (is_recent (window * second) now) log
  recent-recent before now log le =
      filter-filter (is_recent (window * second) now) (is_recent (window * second) before) log
        (λ x h. ground arith)

  abbrev logged : ℕ → ℕ → List ℕ → List ℕ
  logged now allowed log = if allowed == 0 then log else now ∷ log

  sliding_window-Tracks :
      (now : ℕ) (s : S) (log : List ℕ)
      → 0 < window * second
      → filter (is_recent (window * second) now) (set.scores s)
        ≡ filter (is_recent (window * second) now) log
      → length (filter (is_recent (window * second) now) (set.scores s)) ≤ limit
      → let (s', reply) = sliding_window set second limit window now s in
        Tracks now s' (logged now reply.allowed log)
  unfolding sliding_window
  sliding_window-Tracks now s log pos e w =
      let s' = remove_old set second limit window now s in
      ground (
        arith,
        pos,
        e,
        w,
        scores-remove_old now s,
        set.scores-zadd now s',
        set.scores-expire window (set.zadd now s'),
      )

  allowed_at-Tracks :
      (now : ℕ) (earlier : List ℕ) (s : S)
      → 0 < window * second
      → set.scores s ≡ []
      → InOrder (now ∷ earlier)
      → let (s', log) = allowed_at set second limit window (now ∷ earlier) s in Tracks now s' log
  unfolding allowed_at
  allowed_at-Tracks now [] s pos empty o =
      sliding_window-Tracks now s [] pos (ap (filter (is_recent (window * second) now)) empty)
        (ground (arith, empty))
  allowed_at-Tracks now (before ∷ earlier) s pos empty o =
      let (s', log) = allowed_at set second limit window (before ∷ earlier) s in
      let t = allowed_at-Tracks before earlier s pos empty o.1 in
      sliding_window-Tracks now s' log pos
        (ap (filter (is_recent (window * second) now)) t.scores ∙ recent-recent before now log o.0)
        (omega (arith, t.within, length-filter (is_recent (window * second) now) (set.scores s')))

  -- Of a sequence of checks of one key, at times in order and on a set that is empty at first, the
  -- script allows no more than the limit within the window that ends with the last check, however
  -- many there are.
  pub allowed_at_within :
      (now : ℕ) (earlier : List ℕ) (s : S)
      → 0 < window * second
      → set.scores s ≡ []
      → InOrder (now ∷ earlier)
      → length (
          filter
            (is_recent (window * second) now)
            (allowed_at set second limit window (now ∷ earlier) s).1)
        ≤ limit
  allowed_at_within now earlier s pos empty o =
      let t = allowed_at-Tracks now earlier s pos empty o in
      subst (λ xs. length xs ≤ limit) t.scores t.within
