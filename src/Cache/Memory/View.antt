-- ===== src/Cache/Memory/View.antt =====
-- What callers can see of a store: at a time, a map from keys to entries that have not expired.
use resilience_kit.Prelude.{ℕ, ◌≤◌, String, ◌≡◌, Option, none, some, arith, eq_iff, if◌then◌else◌}
use resilience_kit.Prelude.Dict
use resilience_kit.Cache.Memory.{Value, null, Entry, Store, is_expired, get}

abbrev pub live : ℕ → Option Entry → Option Entry
live now none = none
live now (some e) = if is_expired now e.expires then none else some e

unfoldable pub view : ℕ → Store → String → Option Entry
view now store key = live now (Dict.get store key)

abbrev pub value_of : Option Entry → Value
value_of none = null
value_of (some e) = e.value

-- A read returns what the view holds, and the entry that it may drop is missed at no later time.
get_lem :
    (now later : ℕ) (key other : String) (store : Store)
    → now ≤ later
    → ((get now key store).1 ≡ value_of (view now store key))
      × (view later (get now key store).0 other ≡ view later store other)
unfolding get view
get_lem now later key other store le =
    (ground arith, ground (arith, Dict.get-pop store key other, eq_iff key other))

-- An entry that has expired stays expired.
pub view_mono :
    (now later : ℕ) (key : String) (store : Store)
    → now ≤ later
    → view now store key ≡ none
    → view later store key ≡ none
unfolding view
view_mono now later key store le h = ground arith
