-- ===== src/Metrics/Cardinality/Samples.antt =====
-- A sink with a budget of one combination, and the theorem at it.
use resilience_kit.Prelude.{String, List, [], ◌∷◌, ◌≡◌, refl, none, some, map, Option}
use resilience_kit.Metrics.Cardinality.{
  Tags, MetricEvent, incr, new, forward_all, forward, admit, admit_combo, cardinality_exceeded,
}

abbrev hit : String → MetricEvent
hit user = record { instrument = incr; name = "hits"; value = 1; tags = some (("user", user) ∷ []) }

abbrev three_hits : List MetricEvent
three_hits = hit "a" ∷ hit "b" ∷ hit "a" ∷ []

three_hits_sent :
    map {B = String × Option Tags}
      (λ (e : MetricEvent). (e.name, e.tags))
      (forward_all three_hits (new 1)).inner
    ≡ ("hits", some (("user", "a") ∷ []))
      ∷ ("hits", none)
      ∷ (cardinality_exceeded, some (("metric", "hits") ∷ []))
      ∷ ("hits", some (("user", "a") ∷ []))
      ∷ []
unfolding forward_all forward admit admit_combo new resilience_kit.Prelude.Dict.get
    resilience_kit.Prelude.Dict.put
three_hits_sent = refl
