-- ===== src/Tests/ConsumerTests.antt =====
-- A consumer with one handler, and its lag on two partitions.
use high_throughput_notifica.Kafka.Consumer.{
  Admin, ConsumerLag, Handler, find_partition, get_consumer_lag, measure_groups, measure_partitions,
  measure_topic, push_lag,
}
use high_throughput_notifica.Kafka.Consumer.Lag.{Consistent, get_consumer_lag_returns}
use high_throughput_notifica.Prelude.{
  String, [], decimal, if◌then◌else◌, none, refl, some, str_eq, ◌+◌, ◌∷◌, ◌≡◌, ◌⊎◌,
}
use high_throughput_notifica.Prelude.Action.{Outcome, failure, returned, threw}
use high_throughput_notifica.Prelude.Int.{negsuc, pos, pos_part, ℤ, ◌+ℤ◌, ◌-ℤ◌}
use high_throughput_notifica.Tests.World.{World, dawn}

abbrev handler : Handler World String
handler payload w = (threw (failure payload), record w { clock = w.clock + 10 })

-- Offsets of one digit; a longer one is refused as no number.
abbrev one_digit : String → Outcome ℤ
one_digit s =
    if str_eq s "3"
    then returned (pos 3)
    else if str_eq s "8"
    then returned (pos 8)
    else threw (failure "Cannot convert to a BigInt")

abbrev shown_digit : ℤ → String
shown_digit z = decimal (pos_part z)

abbrev admin : Admin World
admin = record {
  connect = λ w. (returned tt, w);
  disconnect = λ w. (returned tt, w);
  fetch_offsets = λ group topic w. (
    returned (
        (record { partition = 0; offset = some "3" } ∷ record { partition = 1; offset = none } ∷ [])
        ∷ []),
    w,
  );
  fetch_topic_offsets = λ topic w. (
    returned (record { partition = 1; high = "3" } ∷ record { partition = 0; high = "8" } ∷ []),
    w,
  );
}

five_behind :
    (get_consumer_lag one_digit shown_digit admin "notification-workers" dawn).0
    ≡ returned (record {
      total_lag = pos 5;
      partition_lag =
          record {
            topic = "notifications";
            partition = 0;
            lag = 5;
            current_offset = "3";
            high_watermark = "8";
          }
          ∷ [];
    })
unfolding get_consumer_lag measure_topic measure_groups measure_partitions push_lag find_partition
    ◌+ℤ◌ ◌-ℤ◌ decimal
five_behind = refl

get_consumer_lag_returns_example :
    (l : ConsumerLag) × ((get_consumer_lag one_digit shown_digit admin "notification-workers"
        dawn).0
      ≡ returned l)
    × (((l.total_lag ≡ negsuc 0) × (l.partition_lag ≡ [])) ⊎ Consistent l)
get_consumer_lag_returns_example =
    get_consumer_lag_returns one_digit shown_digit admin "notification-workers" dawn
