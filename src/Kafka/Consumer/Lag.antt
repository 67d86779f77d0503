-- ===== src/Kafka/Consumer/Lag.antt =====
-- The total that `getConsumerLag` reports is the sum of its parts.
use high_throughput_notifica.Kafka.Consumer.{measure_known, ConsumerLag, PartitionLag, push_lag}
use high_throughput_notifica.Prelude.{List, String, [], arith, ℕ, ◌++◌, ◌+◌, ◌∷◌, ◌≡◌}
use high_throughput_notifica.Prelude.Action.{Outcome}
use high_throughput_notifica.Prelude.Int.{pos, pos_part, ℤ, ◌+ℤ◌, ◌-ℤ◌}
use high_throughput_notifica.Kafka.Consumer.{
  Admin, PartitionOffset, TopicOffset, find_partition, get_consumer_lag, measure_groups,
  measure_partitions, measure_topic,
}
use high_throughput_notifica.Prelude.{Option, inl, inr, none, refl, some, ◌⊎◌}
use high_throughput_notifica.Prelude.Action.{Outcome-cases, returned}
use high_throughput_notifica.Prelude.Int.{negsuc}

-- The lags of the partitions, added up.
pub sum_lags : List PartitionLag → ℕ
sum_lags [] = 0
sum_lags (p ∷ ps) = p.lag + sum_lags ps

sum_lags-append :
    (ps : List PartitionLag) (p : PartitionLag) → sum_lags (ps ++ p ∷ []) ≡ sum_lags ps + p.lag
unfolding sum_lags
sum_lags-append [] p = omega arith
sum_lags-append (q ∷ ps) p = omega (arith, sum_lags-append ps p)

abbrev pub Consistent : ConsumerLag → Type 0
Consistent l = l.total_lag ≡ pos (sum_lags l.partition_lag)

module _ (big_int : String → Outcome ℤ) (to_string : ℤ → String) where
  push_lag-Consistent :
      (topic : String) (partition : ℕ) (current high : ℤ) (l : ConsumerLag)
      → Consistent l
      → Consistent (push_lag big_int to_string topic partition current high l)
  unfolding push_lag ◌+ℤ◌
  push_lag-Consistent topic partition current high l c = ground (
    arith,
    sum_lags-append l.partition_lag (record {
      topic = topic;
      partition = partition;
      lag = pos_part (high -ℤ current);
      current_offset = to_string current;
      high_watermark = to_string high;
    }),
  )

  measure_known-Consistent :
      (topic : String) (partition : ℕ) (offset : Option String) (head : Option TopicOffset)
      (l : ConsumerLag)
      → Consistent l
      → Consistent (measure_known big_int to_string topic partition offset head l).1
  measure_known-Consistent topic partition none head l c = c
  measure_known-Consistent topic partition (some committed) none l c = c
  measure_known-Consistent topic partition (some committed) (some meta) l c =
      elim (Outcome-cases (big_int committed)) [
        | inl (current, e) ↦ elim (Outcome-cases (big_int meta.high)) [
          | inl (high, e') ↦ ground (arith, push_lag-Consistent topic partition current high l c)
          | inr (err, e') ↦ ground arith
        ]
        | inr (err, e) ↦ ground arith
      ]

  measure_partitions-Consistent :
      (topic : String) (heads : List TopicOffset) (ps : List PartitionOffset) (l : ConsumerLag)
      → Consistent l
      → Consistent (measure_partitions big_int to_string topic heads ps l).1
  unfolding measure_partitions
  measure_partitions-Consistent topic heads [] l c = c
  measure_partitions-Consistent topic heads (p ∷ ps) l c =
      let step =
        measure_known big_int to_string topic p.partition p.offset
          (find_partition p.partition heads) l in
      let kept =
        measure_known-Consistent topic p.partition p.offset (find_partition p.partition heads) l
          c in
      elim (Outcome-cases step.0) [
        | inl (u, e) ↦ ground (arith, kept, measure_partitions-Consistent topic heads ps step.1)
        | inr (err, e) ↦ ground (arith, kept)
      ]

  measure_groups-Consistent :
      (topic : String) (heads : List TopicOffset) (gs : List (List PartitionOffset))
      (l : ConsumerLag)
      → Consistent l
      → Consistent (measure_groups big_int to_string topic heads gs l).1
  unfolding measure_groups
  measure_groups-Consistent topic heads [] l c = c
  measure_groups-Consistent topic heads (g ∷ gs) l c =
      let step = measure_partitions big_int to_string topic heads g l in
      let kept = measure_partitions-Consistent topic heads g l c in
      elim (Outcome-cases step.0) [
        | inl (u, e) ↦ ground (arith, kept, measure_groups-Consistent topic heads gs step.1)
        | inr (err, e) ↦ ground (arith, kept)
      ]

  module _ {X : Type 0} (admin : Admin X) where
    measure_topic-Consistent :
        (group topic : String) (l : ConsumerLag) (x : X)
        → Consistent l
        → Consistent (measure_topic big_int to_string admin group topic (l, x)).1.0
    unfolding measure_topic
    measure_topic-Consistent group topic l x c =
        let fetched = admin.fetch_offsets group topic x in
        let known = admin.fetch_topic_offsets topic fetched.1 in
        elim (Outcome-cases fetched.0) [
          | inl (gs, e) ↦ elim (Outcome-cases known.0) [
            | inl (heads, e') ↦ ground (arith, measure_groups-Consistent topic heads gs l c)
            | inr (err, e') ↦ ground arith
          ]
          | inr (err, e) ↦ ground arith
        ]

    -- `getConsumerLag` always returns: either the total -1 without partitions, or a total that is
    -- the sum of the lags of the partitions that it lists, also if an error ended the loops early.
    pub get_consumer_lag_returns :
        (group : String) (x : X)
        → (l : ConsumerLag) × ((get_consumer_lag big_int to_string admin group x).0 ≡ returned l)
          × (((l.total_lag ≡ negsuc 0) × (l.partition_lag ≡ [])) ⊎ Consistent l)
    unfolding get_consumer_lag sum_lags
    get_consumer_lag_returns group x =
        let connected = admin.connect x in
        let measured =
          measure_topic big_int to_string admin group "notifications"
            (record { total_lag = pos 0; partition_lag = [] }, connected.1) in
        let kept =
          measure_topic-Consistent group "notifications"
            (record { total_lag = pos 0; partition_lag = [] }) connected.1 refl in
        let left = admin.disconnect measured.1.1 in
        elim (Outcome-cases connected.0) [
          | inl (u, e) ↦ elim (Outcome-cases measured.0) [
            | inl (v, e') ↦ elim (Outcome-cases left.0) [
              | inl (w, e'') ↦ (measured.1.0, ground arith, inr kept)
              | inr (err, e'') ↦ (
                record { total_lag = negsuc 0; partition_lag = [] },
                ground arith,
                inl (refl, refl),
              )
            ]
            | inr (err, e') ↦ (
              record { total_lag = negsuc 0; partition_lag = [] },
              ground arith,
              inl (refl, refl),
            )
          ]
          | inr (err, e) ↦
              (record { total_lag = negsuc 0; partition_lag = [] }, ground arith, inl (refl, refl))
        ]
