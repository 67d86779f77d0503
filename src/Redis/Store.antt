-- ===== src/Redis/Store.antt =====
-- What the program relies on of Redis, while no key expires: `stored` is the text of a key and
-- `members` the set of a key. A command that returns has done its work, and one key's command
-- leaves the others alone.
use high_throughput_notifica.Redis
use high_throughput_notifica.Prelude.{
  [], List, Option, String, if◌then◌else◌, none, some, str_eq, ℕ, ◌+◌, ◌≡◌,
}
use high_throughput_notifica.Prelude.Action.{returned}
use high_throughput_notifica.Redis.{Client, Stored, number}

pub record Store {X V : Type 0} (client : Redis.Client X V) : Type 0 where
  pub stored : X → String → Option (Redis.Stored V)
  pub members : X → String → List String
  pub get_reads :
      (k : String) (x : X) {o : Option (Redis.Stored V)}
      → (client.get k x).0 ≡ returned o
      → o ≡ stored x k
  pub setex_writes :
      (k : String) (ttl : ℕ) (v : Redis.Stored V) (x : X) (j : String)
      → (client.setex k ttl v x).0 ≡ returned tt
      → stored (client.setex k ttl v x).1 j ≡ (if str_eq k j then some v else stored x j)
  pub del_removes :
      (k : String) (x : X) (j : String) {n : ℕ}
      → (client.del k x).0 ≡ returned n
      → stored (client.del k x).1 j ≡ (if str_eq k j then none else stored x j)
  pub incr_missing :
      (k : String) (x : X) {n : ℕ}
      → (client.incr k x).0 ≡ returned n
      → stored x k ≡ none
      → stored (client.incr k x).1 k ≡ some (Redis.encoded (Redis.number 1))
  pub incr_number :
      (k : String) (x : X) {n m : ℕ}
      → (client.incr k x).0 ≡ returned n
      → stored x k ≡ some (Redis.encoded (Redis.number m))
      → stored (client.incr k x).1 k ≡ some (Redis.encoded (Redis.number (m + 1)))
  pub smembers_reads :
      (k : String) (x : X) {ms : List String}
      → (client.smembers k x).0 ≡ returned ms
      → ms ≡ members x k
  pub smembers_keeps :
      (k : String) (x : X) (j : String) → stored (client.smembers k x).1 j ≡ stored x j

-- A key holds a text or a set, and DEL removes either.
pub record Sets {X V : Type 0} (client : Redis.Client X V) (store : Store client) : Type 0 where
  pub del_empties :
      (k : String) (x : X) (j : String) {n : ℕ}
      → (client.del k x).0 ≡ returned n
      → store.members (client.del k x).1 j ≡ (if str_eq k j then [] else store.members x j)
  pub smembers_keeps_sets :
      (k : String) (x : X) (j : String)
      → store.members (client.smembers k x).1 j ≡ store.members x j
