-- ===== src/Cache/Memory/Counters.antt =====
-- `incr`, on each of its branches, and two of them in a row.
use resilience_kit.Prelude.{ℕ, String, ◌≡◌, false, Option, none, some, arith, eq_refl}
use resilience_kit.Prelude.Dict
use resilience_kit.Prelude.Int.{ℤ, pos, ◌+ℤ◌, +ℤ_assoc}
use resilience_kit.Exceptions.{Outcome, returned}
use resilience_kit.Cache.Memory.{int, Entry, Store, is_expired, store_count, count_on, incr, expiry}
use resilience_kit.Cache.Memory.View.{view}

-- What a counter does by what the view holds: it starts from 0 with the time to live of the call,
-- or goes on from the entry and keeps its expiry, or raises `TypeError` and changes nothing.
pub counted : ℕ → String → ℤ → Option ℕ → Store → Option Entry → Store × Outcome ℤ
unfolding count_on expiry
counted now key amount ttl store none = store_count key (pos 0 +ℤ amount) (expiry now ttl) store
counted now key amount ttl store (some e) = count_on key amount e.value e.expires store

-- `incr` depends on the store only through the view: an expired entry counts as none, and one that
-- is no `int` raises with the store as it was.
pub incr_lem :
    (now : ℕ) (key : String) (amount : ℤ) (ttl : Option ℕ) (store : Store)
    → incr now key amount ttl store ≡ counted now key amount ttl store (view now store key)
unfolding incr view counted
incr_lem now key amount ttl store = ground arith

-- Two increments before the entry expires add up, whatever time to live the calls name, and the
-- entry keeps the expiry that it had.
incr-incr :
    (now later : ℕ) (key : String) (n a b : ℤ) (t ttl ttl' : Option ℕ) (store : Store)
    → view now store key ≡ some (record { value = int n; expires = t })
    → is_expired later t ≡ false
    → let twice = incr later key b ttl' (incr now key a ttl store).0 in
      (twice.1 ≡ returned (n +ℤ (a +ℤ b)))
      × (view later twice.0 key ≡ some (record { value = int (n +ℤ (a +ℤ b)); expires = t }))
unfolding incr view
incr-incr now later key n a b t ttl ttl' store h live = ground (
  arith,
  +ℤ_assoc n a b,
  eq_refl key,
  Dict.get-put store key key (record { value = int (n +ℤ a); expires = t }),
  Dict.get-put (Dict.put store key (record { value = int (n +ℤ a); expires = t })) key key
      (record { value = int (n +ℤ a +ℤ b); expires = t }),
)
