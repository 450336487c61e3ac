-- ===== src/Redis/Clients.antt =====
-- _redis.py: the clients of the process, one for a URL.
--
-- A client is the number of its object. `Redis.from_url` and `aclose` move a state `S`; a client without
-- `aclose` and the lock are left out.
use resilience_kit.Prelude.{
  ℕ, String, [], ◌∷◌, none, some, Option-cases, str_eq, eq_iff, eq_refl, ◌≡◌, arith, inl, inr,
  if◌then◌else◌,
}
use resilience_kit.Prelude.Dict
use resilience_kit.Prelude.Dict.{Dict}

pub record Clients (S : Type 0) : Type 0 where
  pub clients : Dict ℕ
  pub env : S

module _ {S : Type 0} (from_url : String → S → S × ℕ) where
  unfoldable pub get_redis_client : String → Clients S → Clients S × ℕ
  get_redis_client url c = elim (Dict.get c.clients url) [
    | some existing ↦ (c, existing)
    | none ↦
        let (env', client) = from_url url c.env in
        (record { clients = Dict.put c.clients url client; env = env' }, client)
  ]

  -- A URL has one client: asking for it again hands out the same object and builds nothing, and the clients
  -- of other URLs stay as they are.
  get_redis_client-shared :
      (url other : String) (c : Clients S)
      → (get_redis_client url (get_redis_client url c).0
          ≡ ((get_redis_client url c).0, (get_redis_client url c).1))
        × (Dict.get (get_redis_client url c).0.clients other ≡ (
            if str_eq url other then some (get_redis_client url c).1 else Dict.get c.clients other))
  unfolding get_redis_client
  get_redis_client-shared url other c = elim (Option-cases (Dict.get c.clients url)) [
    | inr (client, k) ↦ (ground (arith, k), ground (arith, k, eq_iff url other))
    | inl k ↦
        let client = (from_url url c.env).1 in
        (
          ground (arith, k, Dict.get-put c.clients url url client, eq_refl url),
          ground (arith, k, Dict.get-put c.clients url other client),
        )
  ]

module _ {S : Type 0} (aclose : ℕ → S → S) where
  abbrev close_all : Dict ℕ → S → S
  close_all [] s = s
  close_all ((url, client) ∷ rest) s = close_all rest (aclose client s)

  unfoldable pub aclose_redis_clients : Clients S → Clients S
  aclose_redis_clients c = record { clients = []; env = close_all c.clients c.env }

unfoldable pub reset_redis_clients : {S : Type 0} → Clients S → Clients S
reset_redis_clients c = record c { clients = [] }
