-- ===== src/Tests/SequenceTests.antt =====
-- Four requests of Ann against a stored bucket of three tokens.
use high_throughput_notifica.Redis
use high_throughput_notifica.Prelude.{
  List, String, [], arith, insert, lookup, lookup-insert, refl, ℕ, ◌*◌, ◌+◌, ◌-◌, ◌∷◌, ◌≤◌,
}
use high_throughput_notifica.Prelude.Action.{failure, returned, threw}
use high_throughput_notifica.Prelude.Int.{pos}
use high_throughput_notifica.RateLimit.{Bucket, general_limits}
use high_throughput_notifica.RateLimit.Sequence.{Live, let_through, let_through_bounded}
use high_throughput_notifica.Redis.{Client, Stored, value}
use high_throughput_notifica.Redis.Store.{Store}
use high_throughput_notifica.Retry.Breaker.{Clock}
use high_throughput_notifica.Tests.Fractions.{fractions, fractions-Rounding}

-- A clock that moves on at each reading, and the buckets of Redis.
record Counter : Type 0 where
  clock : ℕ
  buckets : List (String × Redis.Stored Bucket)

abbrev counter_tick : Clock Counter
counter_tick w = (w.clock, record w { clock = w.clock + 1 })

-- A client that reads and writes with an expiry, and refuses every other command.
abbrev counter_redis : Redis.Client Counter Bucket
counter_redis = record {
  get = λ k w. (returned (lookup k w.buckets), w);
  set = λ k v w. (threw (failure "NOPERM"), w);
  setex = λ k ttl v w. (returned tt, record w { buckets = insert k v w.buckets });
  del = λ k w. (threw (failure "NOPERM"), w);
  incr = λ k w. (threw (failure "NOPERM"), w);
  keys = λ p w. (threw (failure "NOPERM"), w);
  sadd = λ k v w. (threw (failure "NOPERM"), w);
  smembers = λ k w. (threw (failure "NOPERM"), w);
}

unfoldable counter_redis-Store : Store counter_redis
counter_redis-Store = record {
  stored = λ w k. lookup k w.buckets;
  members = λ w k. [];
  get_reads = λ k x {o} h. ground arith;
  setex_writes = λ k ttl v x j h. lookup-insert k j v x.buckets;
  del_removes = λ k x j {n} h. cc;
  incr_missing = λ k x {n} h m. cc;
  incr_number = λ k x {n} {m} h e. cc;
  smembers_reads = λ k x {ms} h. cc;
  smembers_keeps = λ k x j. refl;
}

counter_redis-Live : Live counter_tick counter_redis counter_redis-Store
unfolding counter_redis-Store
counter_redis-Live = record {
  at = λ w. w.clock;
  reads = λ k x. refl;
  read_keeps = λ k x. refl;
  writes = λ k ttl v x. refl;
  clock_keeps = λ k x. refl;
  clock_rises = λ x. (omega arith, omega arith);
  read_rises = λ k x. omega arith;
  write_rises = λ k ttl v x. omega arith;
}

abbrev anns : Counter
anns = record {
  clock = 1000;
  buckets =
      (
        "rate_limit:ann:GET",
        Redis.encoded (Redis.value (record { tokens = pos 3; last_refill = 1000 })),
      )
      ∷ [];
}

let_through_bounded_example :
    (let_through fractions general_limits counter_tick counter_redis "rate_limit:ann:GET" 4 anns).0
      * 60000
    ≤ 180000
      + ((let_through fractions general_limits counter_tick counter_redis "rate_limit:ann:GET" 4
            anns).1.clock
          - 1000)
        * 100
unfolding counter_redis-Live counter_redis-Store lookup
let_through_bounded_example =
    let_through_bounded fractions general_limits counter_tick counter_redis fractions-Rounding
      counter_redis-Store counter_redis-Live "rate_limit:ann:GET" 4 anns
      (record { tokens = pos 3; last_refill = 1000 }) (omega arith) refl refl (omega arith)
