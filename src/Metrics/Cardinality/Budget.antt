-- ===== src/Metrics/Cardinality/Budget.antt =====
-- The cap of `BoundedMetricsSink`.
use resilience_kit.Prelude.{
  ℕ, subst, sym, ◌∙◌, ◌≤◌, ◌<◌, ◌⊎◌, inl, inr, String, Bool, true, ◌||◌, ◌≡◌, refl, List, [], ◌∷◌,
  Option, none, some, any, length, str_eq, if◌then◌else◌, arith, eq_iff, eq_refl, All,
}
use resilience_kit.Prelude.Dict
use resilience_kit.Prelude.Dict.{Dict, put, get-put}
use resilience_kit.Metrics.Cardinality.{
  Tags, Combo, combo_of, same_combo, MetricEvent, BoundedSink, new, cardinality_exceeded, seen_of,
  warning, admit_combo, admit, forward, forward_all,
}

same_combo_refl : (c : Combo) → same_combo c c ≡ true
unfolding same_combo
same_combo_refl [] = refl
same_combo_refl ((j, v) ∷ xs) = ground (arith, eq_refl j, eq_refl v, same_combo_refl xs)

-- The tags that an event carries have been admitted for its metric, unless it is the warning.
abbrev pub is_admitted : BoundedSink → MetricEvent → Bool
is_admitted sink event = elim event.tags [
  | none ↦ true
  | some [] ↦ true
  | some (t ∷ ts) ↦
      str_eq event.name cardinality_exceeded
      || any (same_combo (combo_of (t ∷ ts))) (seen_of sink.seen event.name)
]

pub record IsCapped (sink : BoundedSink) : Type 0 where
  pub within : (name : String) → length (seen_of sink.seen name) ≤ sink.budget
  pub labels : All (λ event. is_admitted sink event ≡ true) sink.inner

seen_of-put :
    (seen : Dict (List Combo)) (name other : String) (combos : List Combo)
    → seen_of (put seen name combos) other
      ≡ (if str_eq name other then combos else seen_of seen other)
seen_of-put seen name other combos = ground (arith, get-put seen name other combos)

abbrev combo_in : Option Tags → Combo
combo_in none = []
combo_in (some tags) = combo_of tags

-- Forwarding leaves what is seen of a metric, or adds the combination of the event, within the
-- budget.
forward-seen :
    (event : MetricEvent) (sink : BoundedSink) (name : String)
    → (seen_of (forward event sink).seen name ≡ seen_of sink.seen name)
      ⊎ ((length (seen_of sink.seen name) < sink.budget)
          × (seen_of (forward event sink).seen name ≡ combo_in event.tags ∷ seen_of sink.seen name))
unfolding forward admit admit_combo
forward-seen event sink name = ground (
  arith,
  eq_iff event.name name,
  seen_of-put sink.seen event.name name (seen_of sink.seen event.name),
  seen_of-put sink.seen event.name name (combo_in event.tags ∷ seen_of sink.seen event.name),
)

forward-budget :
    (event : MetricEvent) (sink : BoundedSink) → (forward event sink).budget ≡ sink.budget
unfolding forward admit admit_combo
forward-budget event sink = ground arith

-- What was admitted stays so.
forward-keeps :
    (event : MetricEvent) (sink : BoundedSink) (old : MetricEvent)
    → is_admitted sink old ≡ true
    → is_admitted (forward event sink) old ≡ true
forward-keeps event sink old h = ground (arith, forward-seen event sink old.name)

-- What is sent has been admitted.
forward-sends :
    (event : MetricEvent) (sink : BoundedSink)
    → is_admitted
        (forward event sink)
        (record event { tags = (admit event.name event.tags sink).1 })
      ≡ true
unfolding forward admit admit_combo
forward-sends event sink = ground (
  arith,
  eq_refl event.name,
  same_combo_refl (combo_in event.tags),
  seen_of-put sink.seen event.name event.name (seen_of sink.seen event.name),
  seen_of-put sink.seen event.name event.name (combo_in event.tags ∷ seen_of sink.seen event.name),
)

AllAdmitted : BoundedSink → List MetricEvent → Type 0
AllAdmitted sink events = All (λ event. is_admitted sink event ≡ true) events

forward-AllAdmitted :
    (event : MetricEvent) (sink : BoundedSink) (old : List MetricEvent)
    → AllAdmitted sink old
    → AllAdmitted (forward event sink) old
unfolding AllAdmitted
forward-AllAdmitted event sink [] h = tt
forward-AllAdmitted event sink (e ∷ es) h =
    (forward-keeps event sink e h.0, forward-AllAdmitted event sink es h.1)

-- What the inner sink gets: the event, and a warning before it or none.
forward-inner :
    (event : MetricEvent) (sink : BoundedSink)
    → let sent = record event { tags = (admit event.name event.tags sink).1 } in
      ((forward event sink).inner ≡ sent ∷ sink.inner)
      ⊎ ((forward event sink).inner ≡ sent ∷ warning event.name ∷ sink.inner)
unfolding forward admit admit_combo
forward-inner event sink = ground arith

forward-IsCapped :
    (event : MetricEvent) (sink : BoundedSink) → IsCapped sink → IsCapped (forward event sink)
unfolding AllAdmitted
forward-IsCapped event sink v = record {
  within = λ name.
      ground (arith, v.within name, forward-seen event sink name, forward-budget event sink);
  labels = elim (forward-inner event sink) [
    | inl e ↦
        subst (AllAdmitted (forward event sink)) (sym e)
          (forward-sends event sink, forward-AllAdmitted event sink sink.inner v.labels)
    | inr e ↦
        subst (AllAdmitted (forward event sink)) (sym e)
          (forward-sends event sink, (refl, forward-AllAdmitted event sink sink.inner v.labels))
  ];
}

forward_all-IsCapped :
    (events : List MetricEvent) (sink : BoundedSink)
    → IsCapped sink
    → IsCapped (forward_all events sink)
unfolding forward_all
forward_all-IsCapped [] sink v = v
forward_all-IsCapped (e ∷ es) sink v =
    forward_all-IsCapped es (forward e sink) (forward-IsCapped e sink v)

forward_all-budget :
    (events : List MetricEvent) (sink : BoundedSink)
    → (forward_all events sink).budget ≡ sink.budget
unfolding forward_all
forward_all-budget [] sink = refl
forward_all-budget (e ∷ es) sink = forward_all-budget es (forward e sink) ∙ forward-budget e sink

new-IsCapped : (budget : ℕ) → IsCapped (new budget)
unfolding new Dict.get
new-IsCapped budget = record { within = λ name. ground arith; labels = tt }

-- Whatever events a new wrapper forwards: of each metric it holds at most as many combinations of
-- tags as the budget that it was given, and every labelled event that the inner sink got carries
-- one of them, but for the warnings.
pub labels_within_budget :
    (events : List MetricEvent) (budget : ℕ)
    → ((forward_all events (new budget)).budget ≡ budget)
      × IsCapped (forward_all events (new budget))
unfolding new
labels_within_budget events budget = (
  forward_all-budget events (new budget),
  forward_all-IsCapped events (new budget) (new-IsCapped budget),
)
