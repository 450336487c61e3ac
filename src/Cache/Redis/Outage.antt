-- ===== src/Cache/Redis/Outage.antt =====
-- The Redis cache while Redis cannot be reached.
use resilience_kit.Prelude.{ℕ, ◌+◌, String, true, false, ◌≡◌, Option, arith}
use resilience_kit.Prelude.Int.{ℤ, pos, negsuc}
use resilience_kit.Exceptions.{Exn, Outcome, returned, raised, isinstance}
use resilience_kit.Redis.{redis_error, degrade}
use resilience_kit.Cache.Memory
use resilience_kit.Cache.Memory.{Value, Store}
use resilience_kit.Cache.Redis.{
  Client, State, try_recover, maybe_probe, from_memory, from_server, guarded, get, set, add, delete,
  drop_reply, incr, mark_degraded,
}

-- Every operation of the client raises the error, as redis-py does while it cannot connect.
pub record IsDown {S : Type 0} (client : Client S) (e : Exn) : Type 0 where
  pub of_redis : isinstance e redis_error ≡ true
  pub get : (key : String) (s : S) → (client.get key s).1 ≡ raised e
  pub set :
      (key : String) (v : Value) (ttl : Option ℕ) (s : S) → (client.set key v ttl s).1 ≡ raised e
  pub set_nx :
      (key : String) (v : Value) (ttl : Option ℕ) (s : S) → (client.set_nx key v ttl s).1 ≡ raised e
  pub delete : (key : String) (s : S) → (client.delete key s).1 ≡ raised e
  pub incrby : (key : String) (n : ℕ) (s : S) → (client.incrby key n s).1 ≡ raised e
  pub decrby : (key : String) (n : ℕ) (s : S) → (client.decrby key n s).1 ≡ raised e
  pub ping : (s : S) → (client.ping s).1 ≡ raised e

-- What a method ends with when it is left to the memory cache.
abbrev pub EndsInMemory : {S A : Type 0} → Store × A → State S × Outcome A → Type 0
EndsInMemory (store, a) (st', out) =
    (out ≡ returned a) × (st'.cache.fallback ≡ store) × (st'.cache.health.healthy ≡ false)

module _ {S : Type 0} (client : Client S) (e : Exn) (is_down : IsDown client e) where
  try_recover-down :
      (st : State S)
      → ((try_recover client st).1 ≡ returned false) × ((try_recover client st).0.cache ≡ st.cache)
  unfolding try_recover
  try_recover-down st = ground (arith, is_down.of_redis, is_down.ping st.server)

  guarded-down :
      {A : Type 0} (command : S → S × Outcome A) (in_memory : Store → Store × A) (now : ℕ)
      (st : State S)
      → ((s : S) → (command s).1 ≡ raised e)
      → EndsInMemory (in_memory st.cache.fallback) (guarded client command in_memory now st)
  unfolding guarded maybe_probe from_server from_memory mark_degraded degrade
  guarded-down command in_memory now st fails = ground (
    arith,
    is_down.of_redis,
    fails st.server,
    try_recover-down (record st { cache = record (st.cache) { last_probe_at = now } }),
  )

  get_down :
      (now : ℕ) (key : String) (st : State S)
      → EndsInMemory (Memory.get now key st.cache.fallback) (get client now key st)
  unfolding get
  get_down now key st = guarded-down (client.get key) (Memory.get now key) now st (is_down.get key)

  set_down :
      (now : ℕ) (key : String) (v : Value) (ttl : Option ℕ) (st : State S)
      → EndsInMemory (Memory.set now key v ttl st.cache.fallback, tt) (set client now key v ttl st)
  unfolding set
  set_down now key v ttl st =
      guarded-down (client.set key v ttl) (λ store. (Memory.set now key v ttl store, tt)) now st
        (is_down.set key v ttl)

  add_down :
      (now : ℕ) (key : String) (v : Value) (ttl : Option ℕ) (st : State S)
      → EndsInMemory (Memory.add now key v ttl st.cache.fallback) (add client now key v ttl st)
  unfolding add
  add_down now key v ttl st =
      guarded-down (client.set_nx key v ttl) (Memory.add now key v ttl) now st
        (is_down.set_nx key v ttl)

  delete_down :
      (now : ℕ) (key : String) (st : State S)
      → EndsInMemory (Memory.delete key st.cache.fallback, tt) (delete client now key st)
  unfolding delete
  delete_down now key st =
      guarded-down (drop_reply client key) (λ store. (Memory.delete key store, tt)) now st
        (λ s. ground (arith, is_down.delete key s))

  incr_down :
      (key : String) (amount : ℤ) (ttl : Option ℕ) (st : State S)
      → ((incr client key amount ttl st).1 ≡ raised e)
        × ((incr client key amount ttl st).0.cache ≡ st.cache)
  unfolding incr
  incr_down key (pos n) ttl st = ground (arith, is_down.incrby key n st.server)
  incr_down key (negsuc n) ttl st = ground (arith, is_down.decrby key (n + 1) st.server)

  -- While Redis cannot be reached, `get`, `set`, `add` and `delete` end as in the memory cache
  -- that is embedded, change it alike, and leave the cache degraded. `incr` raises the error
  -- instead, and leaves the object as it is.
  pub cache-outage :
      (now : ℕ) (key : String) (v : Value) (ttl : Option ℕ) (amount : ℤ) (st : State S)
      → EndsInMemory (Memory.get now key st.cache.fallback) (get client now key st)
        × EndsInMemory
            (Memory.set now key v ttl st.cache.fallback, tt)
            (set client now key v ttl st)
        × EndsInMemory (Memory.add now key v ttl st.cache.fallback) (add client now key v ttl st)
        × EndsInMemory (Memory.delete key st.cache.fallback, tt) (delete client now key st)
        × (((incr client key amount ttl st).1 ≡ raised e)
            × ((incr client key amount ttl st).0.cache ≡ st.cache))
  cache-outage now key v ttl amount st = (
    get_down now key st,
    set_down now key v ttl st,
    add_down now key v ttl st,
    delete_down now key st,
    incr_down key amount ttl st,
  )
