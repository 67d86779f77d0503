-- ===== src/Redis.antt =====
-- src/redis/redis.service.ts. The ioredis client is the parameter `Client`. A stored text is
-- represented by what JSON.parse makes of it: `V` are the values that a client of the service
-- stores, beside numbers. The connection's options and `flushall`, `exists`, `ttl` and `expire`,
-- which nothing calls, are not modelled.
pub mod Store
use high_throughput_notifica.Prelude.{List, Option, String, none, some, suc, zero, ℕ}
use high_throughput_notifica.Prelude.Action.{Action, Outcome, failure, returned, threw, ◌>>=◌}

pub data Json (V : Type 0) : Type 0 where
  number : ℕ → Json V
  value : V → Json V

pub data Stored (V : Type 0) : Type 0 where
  empty : Stored V
  malformed : Stored V
  null : Stored V
  encoded : Json V → Stored V

pub record Client (X V : Type 0) : Type 0 where
  pub get : String → Action X (Option (Stored V))
  pub set : String → Stored V → Action X (Unit {0})
  pub setex : String → ℕ → Stored V → Action X (Unit {0})
  pub del : String → Action X ℕ
  pub incr : String → Action X ℕ
  pub keys : String → Action X (List String)
  pub sadd : String → String → Action X ℕ
  pub smembers : String → Action X (List String)

-- `value ? JSON.parse(value) : null`
abbrev pub decode : {V : Type 0} → Option (Stored V) → Outcome (Option (Json V))
decode none = returned none
decode (some empty) = returned none
decode (some malformed) = threw (failure "Unexpected token in JSON")
decode (some null) = returned none
decode (some (encoded j)) = returned (some j)

module _ {X V : Type 0} (client : Client X V) where
  unfoldable pub get : String → Action X (Option (Json V))
  get key = do text ← client.get key; λ x. (decode text, x)

  -- A time to live of 0 is falsy.
  unfoldable pub set : String → Json V → Option ℕ → Action X (Unit {0})
  set key v none = client.set key (encoded v)
  set key v (some zero) = client.set key (encoded v)
  set key v (some (suc t)) = client.setex key (suc t) (encoded v)

  unfoldable pub del : String → Action X ℕ
  del key = client.del key

  unfoldable pub incr : String → Action X ℕ
  incr key = client.incr key

  unfoldable pub keys : String → Action X (List String)
  keys pattern = client.keys pattern
