-- ===== src/Cache/Memory/Samples.antt =====
-- A small store, and the theorems at it.
use resilience_kit.Prelude.{◌+◌, ◌≡◌, refl, none, some, [], ◌∷◌, arith, ltb, str_eq, if◌then◌else◌}
use resilience_kit.Prelude.Dict
use resilience_kit.Prelude.Int.{pos, ◌+ℤ◌}
use resilience_kit.Exceptions.{returned, raised}
use resilience_kit.Cache.Memory.{null, int, object, Store, get, set, incr, delete, not_an_int}
use resilience_kit.Cache.Memory.View.{view, view_mono}
use resilience_kit.Cache.Memory.Writes.{get-set, delete_lem}
use resilience_kit.Cache.Memory.Counters.{counted, incr_lem}

abbrev store : Store
store =
    ("hits", record { value = int (pos 4); expires = some 50 })
    ∷ ("page", record { value = object 9; expires = none })
    ∷ []

view_mono_example : view 70 store "hits" ≡ none
unfolding view Dict.get
view_mono_example = view_mono 60 70 "hits" store (omega arith) refl

delete_lem_example :
    view 10 (delete "hits" store) "page"
    ≡ (if str_eq "hits" "page" then none else view 10 store "page")
delete_lem_example = delete_lem 10 "hits" "page" store

incr_lem_example :
    incr 10 "page" (pos 1) none store ≡ counted 10 "page" (pos 1) none store (view 10 store "page")
incr_lem_example = incr_lem 10 "page" (pos 1) none store

-- A counter of an expired entry starts again; one of an object raises.
counter_runs :
    ((incr 60 "hits" (pos 2) (some 5) store).1 ≡ returned (pos 2))
    × (incr 10 "page" (pos 1) none store ≡ (store, raised not_an_int))
unfolding incr ◌+ℤ◌ Dict.get
counter_runs = (refl, refl)

get-set_example :
    ((get 45 "page" (set 10 "page" null (some 30) store)).1
      ≡ (if ltb 45 (10 + 30) then null else null))
    × ((get 45 "page" (set 10 "page" null none store)).1 ≡ null)
    × (view 45 (set 10 "page" null (some 30) store) "hits" ≡ (
        if str_eq "page" "hits"
        then (if ltb 45 (10 + 30)
            then some (record { value = null; expires = some (10 + 30) })
            else none)
        else view 45 store "hits"))
get-set_example = get-set 10 45 "page" "hits" null 30 store
