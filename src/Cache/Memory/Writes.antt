-- ===== src/Cache/Memory/Writes.antt =====
-- `set`, `add` and `delete`, as updates of the view.
use resilience_kit.Prelude.{
  ℕ, ◌+◌, String, ◌≡◌, true, false, Option, none, some, arith, eq_refl, str_eq, ltb, is_some,
  if◌then◌else◌,
}
use resilience_kit.Prelude.Dict
use resilience_kit.Cache.Memory.{Value, null, Store, get, set, add, delete}
use resilience_kit.Cache.Memory.View.{view}

-- A value set with a time to live is read back at every time before it has passed, and not from then
-- on; one set with none is read back at all times; and other keys are as they were.
pub get-set :
    (now later : ℕ) (key other : String) (v : Value) (ttl : ℕ) (store : Store)
    → ((get later key (set now key v (some ttl) store)).1
        ≡ (if ltb later (now + ttl) then v else null))
      × ((get later key (set now key v none store)).1 ≡ v)
      × (view later (set now key v (some ttl) store) other ≡ (
          if str_eq key other
          then (if ltb later (now + ttl)
              then some (record { value = v; expires = some (now + ttl) })
              else none)
          else view later store other))
unfolding get set view
get-set now later key other v ttl store = (
  ground (
    arith,
    Dict.get-put store key key (record { value = v; expires = some (now + ttl) }),
    eq_refl key,
  ),
  ground (arith, Dict.get-put store key key (record { value = v; expires = none }), eq_refl key),
  ground (arith, Dict.get-put store key other (record { value = v; expires = some (now + ttl) })),
)

-- `add` is `set` for a key that the view does not hold, and else changes nothing.
add_lem :
    (now : ℕ) (key : String) (v : Value) (ttl : Option ℕ) (store : Store)
    → add now key v ttl store
      ≡ (if is_some (view now store key) then (store, false) else (set now key v ttl store, true))
unfolding add view
add_lem now key v ttl store = ground arith

-- A deleted key is read as `None` at once, and other keys are as they were.
pub delete_lem :
    (now : ℕ) (key other : String) (store : Store)
    → view now (delete key store) other ≡ (if str_eq key other then none else view now store other)
unfolding delete view
delete_lem now key other store = ground (arith, Dict.get-pop store key other)
