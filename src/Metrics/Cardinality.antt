-- ===== src/Metrics/Cardinality.antt =====
-- metrics/cardinality.py: `BoundedMetricsSink`.
--
-- The inner sink is the list of the events that it was sent, the latest first. Values are whole
-- numbers. Strings are compared by code points, as in Python. A method is one function: what
-- stands outside the lock in `_admit` only sends. Log lines are left out.
pub mod Budget
mod Samples
use Prim.Native.String.{compare}
use Prim.Native.Nat.{Ordering}
use resilience_kit.Prelude.{
  ℕ, String, Bool, true, false, ◌&&◌, ◌||◌, not, List, [], ◌∷◌, Option, none, some, ltb, any,
  length, str_eq, if◌then◌else◌,
}
use resilience_kit.Prelude.Dict
use resilience_kit.Prelude.Dict.{Dict}

abbrev pub Tags : Type 0
Tags = Dict String

-- `tuple(sorted(tags.items()))`: the keys of a dictionary differ, so that they decide the order.
abbrev pub Combo : Type 0
Combo = List (String × String)

abbrev pub is_before : String → String → Bool
is_before j k = elim (compare j k) [ Ordering.lt ↦ true | _ ↦ false ]

unfoldable pub insert_item : String × String → Combo → Combo
insert_item x [] = x ∷ []
insert_item x (y ∷ ys) =
    let rest = insert_item x ys in if is_before y.0 x.0 then y ∷ rest else x ∷ y ∷ ys

unfoldable pub combo_of : Tags → Combo
unfolding insert_item
combo_of [] = []
combo_of (x ∷ xs) = insert_item x (combo_of xs)

unfoldable pub same_combo : Combo → Combo → Bool
same_combo [] [] = true
same_combo ((j, v) ∷ xs) ((k, w) ∷ ys) = str_eq j k && (str_eq v w && same_combo xs ys)
same_combo _ _ = false

pub data Instrument : Type 0 where
  incr timing gauge : Instrument

-- A call of a method of a sink.
pub record MetricEvent : Type 0 where
  pub instrument : Instrument
  pub name : String
  pub value : ℕ
  pub tags : Option Tags

pub record BoundedSink : Type 0 where
  pub inner : List MetricEvent
  pub budget : ℕ
  pub seen : Dict (List Combo)
  pub warned : List String

unfoldable pub new : ℕ → BoundedSink
new budget = record { inner = []; budget = budget; seen = []; warned = [] }

abbrev pub cardinality_exceeded : String
cardinality_exceeded = "metrics.cardinality_exceeded"

-- `self._seen.setdefault(name, set())`
abbrev pub seen_of : Dict (List Combo) → String → List Combo
seen_of seen name = elim (Dict.get seen name) [ none ↦ [] | some combos ↦ combos ]

-- `self._inner.incr(CARDINALITY_EXCEEDED_METRIC, 1.0, {"metric": name})`
abbrev pub warning : String → MetricEvent
warning name = record {
  instrument = incr;
  name = cardinality_exceeded;
  value = 1;
  tags = some (("metric", name) ∷ []);
}

-- The part of `_admit` under the lock and what it sends, for tags that are there.
unfoldable pub admit_combo : String → Tags → BoundedSink → BoundedSink × Option Tags
unfolding combo_of same_combo
admit_combo name tags sink =
    let combo = combo_of tags in
    let seen = seen_of sink.seen name in
    let sink' = record sink { seen = Dict.put sink.seen name seen } in
    if any (same_combo combo) seen
    then (sink', some tags)
    else if ltb (length seen) sink.budget
    then (record sink { seen = Dict.put sink.seen name (combo ∷ seen) }, some tags)
    else if any (str_eq name) sink.warned
    then (sink', none)
    else (record sink' { warned = name ∷ sink.warned; inner = warning name ∷ sink.inner }, none)

unfoldable pub admit : String → Option Tags → BoundedSink → BoundedSink × Option Tags
unfolding admit_combo
admit name none sink = (sink, none)
admit name (some []) sink = (sink, some [])
admit name (some (t ∷ ts)) sink = admit_combo name (t ∷ ts) sink

-- `incr`, `timing` and `gauge`, which differ in the method that they forward to.
unfoldable pub forward : MetricEvent → BoundedSink → BoundedSink
unfolding admit
forward event sink =
    let (sink', tags) = admit event.name event.tags sink in
    record sink' { inner = record event { tags = tags } ∷ sink'.inner }

unfoldable pub forward_all : List MetricEvent → BoundedSink → BoundedSink
forward_all [] sink = sink
forward_all (event ∷ later) sink = forward_all later (forward event sink)
