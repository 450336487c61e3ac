-- ===== src/Cache/Redis/Samples.antt =====
-- A server that is down, and the theorem at it.
use resilience_kit.Prelude.{ℕ, ◌+◌, refl}
use resilience_kit.Exceptions.{Exn, raised, issubclass}
use resilience_kit.Redis.{redis_error}
use resilience_kit.Cache.Redis
use resilience_kit.Cache.Redis.{Client, State, get, set, add, delete, incr}
use resilience_kit.Cache.Redis.Outage.{IsDown}

-- How often the server was asked.
abbrev Server : Type 0
Server = ℕ

abbrev gone : Exn
gone = record { cls = redis_error; payload = 0 }

abbrev down : Client Server
down = record {
  get = λ key (s : Server). (s + 1, raised gone);
  set = λ key v ttl (s : Server). (s + 1, raised gone);
  set_nx = λ key v ttl (s : Server). (s + 1, raised gone);
  incrby = λ key n (s : Server). (s + 1, raised gone);
  decrby = λ key n (s : Server). (s + 1, raised gone);
  expire = λ key n (s : Server). (s + 1, raised gone);
  delete = λ key (s : Server). (s + 1, raised gone);
  ping = λ (s : Server). (s + 1, raised gone);
}

down-IsDown : IsDown down gone
unfolding issubclass native.Mathlib.Decide.ℕ_discrete
down-IsDown = record {
  of_redis = refl;
  get = λ key s. refl;
  set = λ key v ttl s. refl;
  set_nx = λ key v ttl s. refl;
  delete = λ key s. refl;
  incrby = λ key n s. refl;
  decrby = λ key n s. refl;
  ping = λ s. refl;
}

abbrev fresh : State Server
fresh = record { cache = Redis.new 30; server = 0 }
