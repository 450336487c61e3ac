-- ===== src/Metrics/Sink.antt =====
-- metrics/__init__.py: the active sink, and the functions that record on it.
--
-- A sink that is not bounded is one of the builtins or a number. `sent` is what such a sink got, the
-- latest first; the no-op sink drops it. Values are whole numbers. What is raised in building a sink
-- moves a state `S`. Log lines are left out.
pub mod Bounded
mod Samples
use resilience_kit.Prelude.{ℕ, String, List, [], ◌∷◌, Option, none, some, if◌then◌else◌}
use resilience_kit.Prelude.Dict.{Dict}
use resilience_kit.Exceptions.{
  Exn, Outcome, returned, raised, known, unknown_backend_error, isinstance,
}
use resilience_kit.Providers.{Factory, Installed, name_of, resolve_provider}
use resilience_kit.Metrics.Cardinality.{
  Tags, MetricEvent, incr, timing, gauge, BoundedSink, new, forward,
}

pub data MetricsSink : Type 0 where
  noop stdlib_logging : MetricsSink
  third_party : ℕ → MetricsSink

pub data Active : Type 0 where
  plain : MetricsSink → Active
  bounded : MetricsSink → BoundedSink → Active

-- `_BUILTIN_SINKS`
abbrev pub builtin_sinks : {S : Type 0} → Dict (Factory Unit MetricsSink S)
builtin_sinks =
    ("noop", λ kwargs s. (s, returned noop))
    ∷ ("stdlib_logging", λ kwargs s. (s, returned stdlib_logging))
    ∷ []

-- The settings that are read.
pub record Settings : Type 0 where
  pub metrics_sink : String
  pub metrics_cardinality_budget : Option ℕ

-- The variable `_sink`, and what was sent to it while it was not bounded.
pub record Metrics (S : Type 0) : Type 0 where
  pub sink : Option Active
  pub sent : List MetricEvent
  pub env : S

abbrev pub within : Option ℕ → MetricsSink → Active
within none sink = plain sink
within (some budget) sink = bounded sink (new budget)

-- What the `try` statement of `_resolve_from_settings` ends with.
abbrev pub or_noop : Outcome MetricsSink → Outcome MetricsSink
or_noop (returned sink) = returned sink
or_noop (raised e) = if isinstance e (known unknown_backend_error) then returned noop else raised e

-- A sink gets an event.
abbrev pub deliver : {S : Type 0} → MetricEvent → Active → Metrics S → Metrics S
deliver event (plain noop) m = m
deliver event (plain sink) m = record m { sent = event ∷ m.sent }
deliver event (bounded sink b) m = record m { sink = some (bounded sink (forward event b)) }

module _ {S : Type 0} where
  unfoldable pub set_metrics : Active → Metrics S → Metrics S
  set_metrics sink m = record m { sink = some sink; sent = [] }

  unfoldable pub reset_metrics : Metrics S → Metrics S
  reset_metrics m = record m { sink = none; sent = [] }

module _ {S : Type 0} (x : Installed Unit MetricsSink S) (c : Settings) where
  unfoldable pub resolve_from_settings : S → S × Outcome Active
  resolve_from_settings s =
      let (s', out) =
        resolve_provider x "resilience_kit.metrics_sinks" (name_of c.metrics_sink) builtin_sinks tt
          s in
      elim (or_noop out) [
        | raised e ↦ (s', raised e)
        | returned sink ↦ (s', returned (within c.metrics_cardinality_budget sink))
      ]

  unfoldable pub get_metrics : Metrics S → Metrics S × Outcome Active
  unfolding resolve_from_settings
  get_metrics m = elim m.sink [
    | some sink ↦ (m, returned sink)
    | none ↦
        let (env', out) = resolve_from_settings m.env in
        elim out [
          | raised e ↦ (record m { env = env' }, raised e)
          | returned sink ↦ (record m { env = env'; sink = some sink }, returned sink)
        ]
  ]

  -- `record_counter`, `record_duration` and `record_gauge`, by the instrument of the event: the exception
  -- that gets through, if any.
  unfoldable pub record_event : MetricEvent → Metrics S → Metrics S × Option Exn
  unfolding get_metrics
  record_event event m =
      let (m', out) = get_metrics m in
      elim out [ raised e ↦ (m', some e) | returned sink ↦ (deliver event sink m', none) ]

  unfoldable pub record_events : List MetricEvent → Metrics S → Metrics S
  unfolding record_event
  record_events [] m = m
  record_events (event ∷ later) m = record_events later (record_event event m).0
