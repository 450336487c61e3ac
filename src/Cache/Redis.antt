-- ===== src/Cache/Redis.antt =====
-- cache/redis_impl.py: `RedisAsyncCache`.
--
-- The client's operations return or raise, and move a state `S` of server and connection. A method
-- is one function of the reading of the clock, in ticks, so that what other tasks do while it waits
-- for the server is left out. The prefix of the keys (`_k`) is left to the client.
pub mod Outage
mod Samples
use resilience_kit.Prelude.{
  ℕ, ◌+◌, String, Bool, true, false, List, [], ◌∷◌, Option, none, some, ltb, is_yes, if◌then◌else◌,
}
use resilience_kit.Prelude.Int.{ℤ, pos, negsuc, ℤ-discrete}
use resilience_kit.Exceptions.{Exn, Outcome, returned, raised, isinstance}
use resilience_kit.Redis.{
  redis_error, Health, all_well, degrade, snapshot_degraded, HealthSnapshot, BackendName,
}
use resilience_kit.Cache.Memory
use resilience_kit.Cache.Memory.{Value, Store}

-- redis-py, as far as the cache calls it: `set_nx` is `set` with `nx=True`, whose reply is read as
-- a truth value.
pub record Client (S : Type 0) : Type 0 where
  pub get : String → S → S × Outcome Value
  pub set : String → Value → Option ℕ → S → S × Outcome (Unit {0})
  pub set_nx : String → Value → Option ℕ → S → S × Outcome Bool
  pub incrby : String → ℕ → S → S × Outcome ℤ
  pub decrby : String → ℕ → S → S × Outcome ℤ
  pub expire : String → ℕ → S → S × Outcome (Unit {0})
  pub delete : String → S → S × Outcome ℕ
  pub ping : S → S × Outcome (Unit {0})

pub record RedisCache : Type 0 where
  pub health : Health
  pub last_probe_at : ℕ
  pub probe_interval : ℕ
  pub fallback : Store
  pub metrics : List String

unfoldable pub new : ℕ → RedisCache
new probe_interval = record {
  health = all_well;
  last_probe_at = 0;
  probe_interval = probe_interval;
  fallback = [];
  metrics = [];
}

abbrev pub count : String → RedisCache → RedisCache
count m c = record c { metrics = m ∷ c.metrics }

unfoldable pub mark_degraded : ℕ → RedisCache → RedisCache
unfolding degrade
mark_degraded now c = count "cache.degraded" (record c { health = degrade now c.health })

-- The object and the server.
pub record State (S : Type 0) : Type 0 where
  pub cache : RedisCache
  pub server : S

abbrev pub on_fallback : {S : Type 0} → State S → Store → State S
on_fallback st store = record st { cache = record (st.cache) { fallback = store } }

module _ {S : Type 0} (client : Client S) where
  unfoldable pub try_recover : State S → State S × Outcome Bool
  try_recover st =
      if st.cache.health.healthy
      then (st, returned false)
      else let (server, r) = client.ping st.server in
        let st' = record st { server = server } in
        elim r [
          | returned pong ↦ (
            record st' {
              cache = count "cache.recovered" (record (st'.cache) { health = all_well });
            },
            returned true,
          )
          | raised e ↦ if isinstance e redis_error then (st', returned false) else (st', raised e)
        ]

  unfoldable pub maybe_probe : ℕ → State S → State S × Outcome Bool
  unfolding try_recover
  maybe_probe now st =
      if ltb now (st.cache.last_probe_at + st.cache.probe_interval)
      then (st, returned false)
      else try_recover (record st { cache = record (st.cache) { last_probe_at = now } })

  -- The shape that `get`, `set`, `add` and `delete` share: on the primary path a command of the
  -- client, and the same method of the memory cache where Redis fails or the cache is degraded.
  module _ {A : Type 0} (command : S → S × Outcome A) (in_memory : Store → Store × A) where
    unfoldable pub from_memory : State S → State S × Outcome A
    from_memory st =
        let (store, a) = in_memory st.cache.fallback in (on_fallback st store, returned a)

    unfoldable pub from_server : ℕ → State S → State S × Outcome A
    unfolding mark_degraded from_memory
    from_server now st =
        let (server, r) = command st.server in
        let st' = record st { server = server } in
        elim r [
          | returned a ↦ (st', returned a)
          | raised e ↦
              if isinstance e redis_error
              then from_memory (record st' { cache = mark_degraded now st'.cache })
              else (st', raised e)
        ]

    unfoldable pub guarded : ℕ → State S → State S × Outcome A
    unfolding maybe_probe from_server
    guarded now st =
        if st.cache.health.healthy
        then from_server now st
        else let (st', probe) = maybe_probe now st in
          elim probe [
            | raised e ↦ (st', raised e)
            | returned back ↦ if back then from_server now st' else from_memory st'
          ]

  unfoldable pub get : ℕ → String → State S → State S × Outcome Value
  unfolding guarded Memory.get
  get now key = guarded (client.get key) (Memory.get now key) now

  unfoldable pub set : ℕ → String → Value → Option ℕ → State S → State S × Outcome (Unit {0})
  unfolding guarded Memory.set
  set now key value ttl =
      guarded (client.set key value ttl) (λ store. (Memory.set now key value ttl store, tt)) now

  unfoldable pub add : ℕ → String → Value → Option ℕ → State S → State S × Outcome Bool
  unfolding guarded Memory.add
  add now key value ttl = guarded (client.set_nx key value ttl) (Memory.add now key value ttl) now

  -- The replies of DEL are dropped.
  abbrev pub drop_reply : String → S → S × Outcome (Unit {0})
  drop_reply key s =
      let (s', r) = client.delete key s in
      elim r [ returned n ↦ (s', returned tt) | raised e ↦ (s', raised e) ]

  unfoldable pub delete : ℕ → String → State S → State S × Outcome (Unit {0})
  unfolding guarded Memory.delete
  delete now key = guarded (drop_reply key) (λ store. (Memory.delete key store, tt)) now

  abbrev pub incr_command : String → ℤ → S → S × Outcome ℤ
  incr_command key (pos n) s = client.incrby key n s
  incr_command key (negsuc n) s = client.decrby key (n + 1) s

  -- `incr` has no fallback and does not look at the health.
  unfoldable pub incr : String → ℤ → Option ℕ → State S → State S × Outcome ℤ
  unfolding ℤ-discrete
  incr key amount ttl st =
      let (server, r) = incr_command key amount st.server in
      elim r [
        | raised e ↦ (record st { server = server }, raised e)
        | returned n ↦ elim ttl [
          | none ↦ (record st { server = server }, returned n)
          | some seconds ↦
              if is_yes (ℤ-discrete n amount)
              then (let (server', r') = client.expire key seconds server in
                  elim r' [
                    | returned done ↦ (record st { server = server' }, returned n)
                    | raised e ↦ (record st { server = server' }, raised e)
                  ])
              else (record st { server = server }, returned n)
        ]
      ]

  unfoldable pub health_check : ℕ → State S → State S × Outcome HealthSnapshot
  unfolding mark_degraded
  health_check now st =
      if st.cache.health.healthy
      then (let (server, r) = client.ping st.server in
          let st' = record st { server = server } in
          elim r [
            | returned pong ↦ (
              st',
              returned
                  (record { healthy = true; backend = BackendName.redis; degraded_since = none }),
            )
            | raised e ↦
                if isinstance e redis_error
                then (let c = mark_degraded now st'.cache in
                    (record st' { cache = c }, returned (snapshot_degraded c.health)))
                else (st', raised e)
          ])
      else (st, returned (snapshot_degraded st.cache.health))
