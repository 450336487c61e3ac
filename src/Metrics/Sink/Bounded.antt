-- ===== src/Metrics/Sink/Bounded.antt =====
-- The settings' budget bounds what the sink in use gets.
use resilience_kit.Prelude.{ℕ, List, [], ◌∷◌, none, some, ◌≡◌, arith}
use resilience_kit.Exceptions.{returned}
use resilience_kit.Providers.{Installed, name_of, resolve_provider}
use resilience_kit.Metrics.Cardinality.{MetricEvent, BoundedSink, new, forward, forward_all}
use resilience_kit.Metrics.Cardinality.Budget.{IsCapped, labels_within_budget}
use resilience_kit.Metrics.Sink.{
  MetricsSink, bounded, builtin_sinks, Settings, Metrics, or_noop, resolve_from_settings,
  get_metrics, record_event, record_events,
}

module _ {S : Type 0} (x : Installed Unit MetricsSink S) (c : Settings) where
  record_events-bounded :
      (events : List MetricEvent) (sink : MetricsSink) (b : BoundedSink) (m : Metrics S)
      → m.sink ≡ some (bounded sink b)
      → (record_events x c events m).sink ≡ some (bounded sink (forward_all events b))
  unfolding record_events record_event get_metrics forward_all
  record_events-bounded [] sink b m h = h
  record_events-bounded (event ∷ later) sink b m h =
      record_events-bounded later sink (forward event b) (record_event x c event m).0
        (ground (arith, h))

  -- With a budget in the settings, a sink that the chain resolves, or the no-op sink in place of one that
  -- it does not know, is in use after the first event, behind a wrapper with that budget: whatever is
  -- recorded, each metric keeps at most the budget of combinations, and every labelled event that gets
  -- through carries one of them, but for the warnings.
  pub record_events-IsCapped :
      (event : MetricEvent) (later : List MetricEvent) (budget : ℕ) (sink : MetricsSink)
      (m : Metrics S)
      → m.sink ≡ none
      → c.metrics_cardinality_budget ≡ some budget
      → or_noop
          (resolve_provider x "resilience_kit.metrics_sinks"
            (name_of c.metrics_sink)
            builtin_sinks
            tt
            m.env).1
        ≡ returned sink
      → (b : BoundedSink) × ((record_events x c (event ∷ later) m).sink ≡ some (bounded sink b))
        × (b.budget ≡ budget)
        × IsCapped b
  unfolding record_events record_event get_metrics resolve_from_settings forward_all
  record_events-IsCapped event later budget sink m unset has resolves =
      let first : (record_event x c event m).0.sink
          ≡ some (bounded sink (forward event (new budget))) =
        ground (arith, unset, has, resolves) in
      let (kept, capped) = labels_within_budget (event ∷ later) budget in
      (
        forward_all (event ∷ later) (new budget),
        record_events-bounded later sink (forward event (new budget)) (record_event x c event m).0
            first,
        kept,
        capped,
      )
