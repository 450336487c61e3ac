-- ===== src/Metrics/Sink/Samples.antt =====
-- A budget of one, and the theorem at it.
use resilience_kit.Prelude.{ℕ, String, [], ◌∷◌, none, some, ◌≡◌, refl}
use resilience_kit.Exceptions.{Outcome, returned}
use resilience_kit.Providers.{Target, not_callable, Installed, resolve_provider, resolve_named}
use resilience_kit.Metrics.Cardinality.{MetricEvent, incr, BoundedSink}
use resilience_kit.Metrics.Cardinality.Budget.{IsCapped}
use resilience_kit.Metrics.Sink.{MetricsSink, noop, bounded, Settings, Metrics, record_events}
use resilience_kit.Metrics.Sink.Bounded.{record_events-IsCapped}
use resilience_kit.Prelude.Dict

abbrev no_attribute : String → String → ℕ → ℕ × Outcome (Target Unit MetricsSink ℕ)
no_attribute path attr s = (s, returned not_callable)

abbrev bare : Installed Unit MetricsSink ℕ
bare = record { attribute = no_attribute; entry_points = λ group. [] }

-- A name that nothing has.
abbrev settings : Settings
settings = record { metrics_sink = "statsd"; metrics_cardinality_budget = some 1 }

abbrev unset : Metrics ℕ
unset = record { sink = none; sent = []; env = 0 }

abbrev hit : String → MetricEvent
hit who = record { instrument = incr; name = "hits"; value = 1; tags = some (("who", who) ∷ []) }

record_events-IsCapped_example :
    (b : BoundedSink) × ((record_events bare settings (hit "a" ∷ hit "b" ∷ []) unset).sink
      ≡ some (bounded noop b))
    × (b.budget ≡ 1)
    × IsCapped b
unfolding resolve_provider resolve_named Dict.get resilience_kit.Exceptions.issubclass
record_events-IsCapped_example =
    record_events-IsCapped bare settings (hit "a") (hit "b" ∷ []) 1 noop unset refl refl refl
