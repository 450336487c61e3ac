-- ===== src/Cache/Memory.antt =====
-- cache/memory_impl.py: `InMemoryAsyncCache`.
--
-- The state is `_store`; every method runs under the lock and is one function, with the reading of
-- the monotonic clock, in ticks, as its argument. `ttl` is in ticks too. A method returns the new
-- store and its result, and `incr` may raise.
pub mod View
pub mod Writes
pub mod Counters
mod Samples
use resilience_kit.Prelude.{
  ℕ, ◌+◌, String, Bool, true, false, Option, none, some, leb, ltb, if◌then◌else◌,
}
use resilience_kit.Prelude.Dict
use resilience_kit.Prelude.Dict.{Dict}
use resilience_kit.Prelude.Int.{ℤ, pos, ◌+ℤ◌}
use resilience_kit.Exceptions.{Exn, Outcome, returned, raised, known, type_error}

-- What callers store: `None`, an `int`, or any other object.
pub data Value : Type 0 where
  null : Value
  int : ℤ → Value
  object : ℕ → Value

pub record Entry : Type 0 where
  pub value : Value
  pub expires : Option ℕ

abbrev pub Store : Type 0
Store = Dict Entry

-- `_expires`
unfoldable pub expiry : ℕ → Option ℕ → Option ℕ
expiry now none = none
expiry now (some ttl) = some (now + ttl)

-- `expires is not None and self._clock.monotonic() >= expires`
abbrev pub is_expired : ℕ → Option ℕ → Bool
is_expired now none = false
is_expired now (some t) = leb t now

-- `None` on a miss, as on a stored `None`.
unfoldable pub get : ℕ → String → Store → Store × Value
get now key store = elim (Dict.get store key) [
  | none ↦ (store, null)
  | some entry ↦
      if is_expired now entry.expires then (Dict.pop store key, null) else (store, entry.value)
]

unfoldable pub set : ℕ → String → Value → Option ℕ → Store → Store
unfolding expiry
set now key value ttl store =
    Dict.put store key (record { value = value; expires = expiry now ttl })

-- `expires is None or self._clock.monotonic() < expires`
abbrev pub is_live : ℕ → Option ℕ → Bool
is_live now none = true
is_live now (some t) = ltb now t

unfoldable pub add : ℕ → String → Value → Option ℕ → Store → Store × Bool
unfolding set
add now key value ttl store = elim (Dict.get store key) [
  | none ↦ (set now key value ttl store, true)
  | some entry ↦
      if is_live now entry.expires then (store, false) else (set now key value ttl store, true)
]

abbrev pub not_an_int : Exn
not_an_int = record { cls = known type_error; payload = 0 }

-- The write that ends `incr`.
abbrev pub store_count : String → ℤ → Option ℕ → Store → Store × Outcome ℤ
store_count key n expires store =
    (Dict.put store key (record { value = int n; expires = expires }), returned n)

-- An unexpired entry is counted on if it is an `int`.
unfoldable pub count_on : String → ℤ → Value → Option ℕ → Store → Store × Outcome ℤ
count_on key amount (int n) expires store = store_count key (n +ℤ amount) expires store
count_on key amount _ expires store = (store, raised not_an_int)

unfoldable pub incr : ℕ → String → ℤ → Option ℕ → Store → Store × Outcome ℤ
unfolding expiry count_on
incr now key amount ttl store = elim (Dict.get store key) [
  | none ↦ store_count key (pos 0 +ℤ amount) (expiry now ttl) store
  | some entry ↦
      if is_expired now entry.expires
      then store_count key (pos 0 +ℤ amount) (expiry now ttl) store
      else count_on key amount entry.value entry.expires store
]

unfoldable pub delete : String → Store → Store
delete key store = Dict.pop store key
