-- ===== src/Tests/World.antt =====
-- A world in which every service works: a clock that moves on at each reading, topics that accept
-- every record, a Redis and two tables as association lists.
use high_throughput_notifica.Redis
use high_throughput_notifica.Notifications
use high_throughput_notifica.Worker
use high_throughput_notifica.Kafka.Producer.{Broker, ProducerRecord}
use high_throughput_notifica.Notifications.{NewRow, Row, Table}
use high_throughput_notifica.Notifications.Idempotency.{Apart}
use high_throughput_notifica.Prelude.{
  List, Option, String, [], arith, concat, decimal, eq_iff, insert, length, lookup, lookup-insert,
  none, refl, some, ℕ, ◌++◌, ◌+◌, ◌∷◌, ◌≡◌,
}
use high_throughput_notifica.Prelude.Action.{returned}
use high_throughput_notifica.Processor.{Timer}
use high_throughput_notifica.Redis.{Client, Stored, number}
use high_throughput_notifica.Redis.Store.{Sets, Store}
use high_throughput_notifica.Retry.Breaker.{Clock}
use high_throughput_notifica.Retry.Service.Routing.{Log}
use high_throughput_notifica.Worker.{Change, Database, Delivery, Worker, sent_change}
use high_throughput_notifica.Worker.Redelivery.{Rows}
use high_throughput_notifica.Prelude.Action.{failure, threw}

pub record World : Type 0 where
  pub clock : ℕ
  pub drawn : ℕ
  pub topics : List ProducerRecord
  pub cache : List (String × Option (Redis.Stored String))
  pub sets : List (String × List String)
  pub deliveries : List (String × Option Worker.Delivery)
  pub table : List (String × Notifications.Row)

abbrev pub tick : Clock World
tick w = (w.clock, record w { clock = w.clock + 1 })

abbrev pub draw : World → String × World
draw w = (concat "uuid-" (decimal w.drawn), record w { drawn = w.drawn + 1 })

abbrev pub pass_time : Timer World
pass_time ms w = record w { clock = w.clock + ms }

abbrev pub broker : Broker World
broker = record {
  send = λ r w. (
    returned (record { topic_name = r.topic; partition = 0; base_offset = 0 } ∷ []),
    record w { topics = w.topics ++ r ∷ [] },
  );
}

-- An entry of a table of options: missing where there is none.
abbrev pub entry : {V : Type 0} → Option (Option V) → Option V
entry none = none
entry (some v) = v

-- INCR: a missing key counts from 0.
abbrev pub incremented : Option (Redis.Stored String) → Option (Redis.Stored String)
incremented none = some (Redis.encoded (Redis.number 1))
incremented (some (Redis.encoded (Redis.number n))) = some (Redis.encoded (Redis.number (n + 1)))
incremented v = v

-- A set that no command has made is empty.
abbrev pub members_in : Option (List String) → List String
members_in none = []
members_in (some ms) = ms

abbrev pub redis : Redis.Client World String
redis = record {
  get = λ k w. (returned (entry (lookup k w.cache)), w);
  set = λ k v w. (returned tt, record w { cache = insert k (some v) w.cache });
  setex = λ k ttl v w. (returned tt, record w { cache = insert k (some v) w.cache });
  del = λ k w. (returned 1, record w { cache = insert k none w.cache; sets = insert k [] w.sets });
  incr = λ k w.
      (returned 1, record w { cache = insert k (incremented (entry (lookup k w.cache))) w.cache });
  keys = λ p w. (returned [], w);
  sadd =
      λ k v w. (returned 1, record w { sets = insert k (v ∷ members_in (lookup k w.sets)) w.sets });
  smembers = λ k w. (returned (members_in (lookup k w.sets)), w);
}

unfoldable pub redis-Store : Store redis
redis-Store = record {
  stored = λ w k. entry (lookup k w.cache);
  members = λ w k. members_in (lookup k w.sets);
  get_reads = λ k x {o} h. ground arith;
  setex_writes = λ k ttl v x j h. ground (arith, lookup-insert k j (some v) x.cache);
  del_removes = λ k x j {n} h. ground (arith, lookup-insert k j none x.cache);
  incr_missing = λ k x {n} h m.
      ground
        (arith, eq_iff k k, lookup-insert k k (incremented (entry (lookup k x.cache))) x.cache);
  incr_number = λ k x {n} {m} h e.
      ground
        (arith, eq_iff k k, lookup-insert k k (incremented (entry (lookup k x.cache))) x.cache);
  smembers_reads = λ k x {ms} h. ground arith;
  smembers_keeps = λ k x j. refl;
}

unfoldable pub redis-Sets : Sets redis redis-Store
unfolding redis-Store
redis-Sets = record {
  del_empties = λ k x j {n} h. ground (arith, lookup-insert k j [] x.sets);
  smembers_keeps_sets = λ k x j. refl;
}

-- What an update does to the columns that the worker selects.
abbrev pub updated : Option Worker.Delivery → Worker.Change → Worker.Delivery
updated none c = record { status = c.status; sent_at = c.sent_at }
updated (some d) c = record {
  status = c.status;
  sent_at = elim c.sent_at [ none ↦ d.sent_at | some t ↦ some t ];
}

abbrev pub db : Worker.Database World
db = record {
  find_unique = λ id w. (returned (entry (lookup id w.deliveries)), w);
  update = λ id c w. (
    returned tt,
    record w {
      deliveries = insert id (some (updated (entry (lookup id w.deliveries)) c)) w.deliveries;
    },
  );
}

abbrev pub worker_services : Worker.Services World
worker_services = record { now = tick; wait = pass_time; broker = broker; db = db }

unfoldable pub worker_services-Rows : Rows worker_services
worker_services-Rows = record {
  rows = λ w id. entry (lookup id w.deliveries);
  found = λ id x {d} h. ground arith;
  sent = λ id sent_at t x h. ground (
    arith,
    eq_iff id id,
    lookup-insert id id
        (some (updated (entry (lookup id x.deliveries)) (Worker.sent_change sent_at t)))
        x.deliveries,
  );
  unread = λ id x. refl;
  unmoved = λ id x. refl;
}

unfoldable pub broker-Log : Log tick broker
broker-Log = record {
  topics = λ w. w.topics;
  accepted = λ r x {ms} h. refl;
  refused = λ r x {e} h. cc;
  untouched = λ x. refl;
}

-- The id of a new row is the number of rows before it.
abbrev pub row_of : ℕ → ℕ → Notifications.NewRow → Notifications.Row
row_of n t c = record {
  id = concat "notif-" (decimal n);
  created_at = t;
  updated_at = t;
  causation_id = none;
  columns = c;
}

-- A row is found under its id.
abbrev pub with_id : String → Option Notifications.Row → Option Notifications.Row
with_id id none = none
with_id id (some r) = some (record r { id = id })

abbrev pub table : Notifications.Table World
table = record {
  find_unique = λ id w. (returned (with_id id (lookup id w.table)), w);
  create = λ c w.
      let r = row_of (length w.table) w.clock c in
      (returned r, record w { table = insert r.id r w.table });
}

abbrev pub services : Notifications.Services World
services = record { now = tick; uuid = draw; broker = broker; table = table; redis = redis }

pub with_id-id :
    (id : String) (o : Option Notifications.Row) (r : Notifications.Row)
    → with_id id o ≡ some r
    → r.id ≡ id
with_id-id id none r h = cc
with_id-id id (some s) r h = ground arith

pub services-Apart : Apart services redis-Store
unfolding redis-Store
services-Apart = record {
  clock_apart = λ x k. refl;
  uuid_apart = λ x k. refl;
  broker_apart = λ r x k. refl;
  find_apart = λ id x k. refl;
  find_by_id = λ id x {row} h. with_id-id id (lookup id x.table) row (ground arith);
}

abbrev pub dawn : World
dawn = record {
  clock = 1000;
  drawn = 0;
  topics = [];
  cache = [];
  sets = [];
  deliveries = [];
  table = [];
}

-- A Redis that does not answer.
abbrev pub dead : (V : Type 0) → Redis.Client World V
dead V = record {
  get = λ k w. (threw (failure "ECONNREFUSED"), w);
  set = λ k v w. (threw (failure "ECONNREFUSED"), w);
  setex = λ k ttl v w. (threw (failure "ECONNREFUSED"), w);
  del = λ k w. (threw (failure "ECONNREFUSED"), w);
  incr = λ k w. (threw (failure "ECONNREFUSED"), w);
  keys = λ p w. (threw (failure "ECONNREFUSED"), w);
  sadd = λ k v w. (threw (failure "ECONNREFUSED"), w);
  smembers = λ k w. (threw (failure "ECONNREFUSED"), w);
}
