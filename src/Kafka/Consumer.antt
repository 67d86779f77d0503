-- ===== src/Kafka/Consumer.antt =====
-- src/kafka/kafka-consumer.service.ts: the map of message handlers, the dispatch of `consume` and
-- `getConsumerLag`. The kafkajs admin client is the parameter `Admin`; BigInt and its toString are
-- the parameters of the lag.
pub mod Lag
use high_throughput_notifica.Prelude.{
  List, Option, String, [], arith, if◌then◌else◌, insert, lookup, lookup-insert, none, some, str_eq,
  ℕ, ◌++◌, ◌==◌, ◌∷◌, ◌≡◌,
}
use high_throughput_notifica.Prelude.Action.{
  Action, Outcome, gets, modify, pure, returned, try_catch, ◌>>=◌, ◌>>◌,
}
use high_throughput_notifica.Prelude.Int.{negsuc, pos, pos_part, ℤ, ◌+ℤ◌, ◌-ℤ◌}

-- A handler of a topic, over payloads `P` of the broker.
abbrev pub Handler : Type 0 → Type 0 → Type 0
Handler X P = P → Action X (Unit {0})

-- `messageHandlers`
abbrev pub MessageHandlers : Type 0 → Type 0 → Type 0
MessageHandlers X P = List (String × Handler X P)

module _ {X P : Type 0} where
  unfoldable pub register_message_handler :
      String → Handler X P → MessageHandlers X P → MessageHandlers X P
  register_message_handler topic handler handlers = insert topic handler handlers

  -- The default handler only logs.
  abbrev handler_or_default : Option (Handler X P) → Handler X P
  handler_or_default none payload = pure tt
  handler_or_default (some handler) payload = handler payload

  -- `eachMessage`: an error of the handler is logged.
  unfoldable pub each_message : MessageHandlers X P → String → P → Action X (Unit {0})
  each_message handlers topic payload =
      try_catch (handler_or_default (lookup topic handlers) payload) (λ e. pure tt)

  -- After a handler is registered for a topic, a message of that topic runs it and ends without an
  -- error whatever it throws, and messages of other topics go where they went before.
  pub each_message-register_message_handler :
      (topic other : String) (handler : Handler X P) (handlers : MessageHandlers X P) (payload : P)
      (x : X)
      → each_message (register_message_handler topic handler handlers) other payload x ≡ (
          if str_eq topic other
          then (returned tt, (handler payload x).1)
          else each_message handlers other payload x)
  unfolding each_message register_message_handler
  each_message-register_message_handler topic other handler handlers payload x =
      ground (arith, lookup-insert topic other handler handlers)

-- What the admin client knows of a group and of a topic; a group without a commit has no offset.
pub record PartitionOffset : Type 0 where
  pub partition : ℕ
  pub offset : Option String

pub record TopicOffset : Type 0 where
  pub partition : ℕ
  pub high : String

pub record Admin (X : Type 0) : Type 0 where
  pub connect : Action X (Unit {0})
  pub disconnect : Action X (Unit {0})
  pub fetch_offsets : String → String → Action X (List (List PartitionOffset))
  pub fetch_topic_offsets : String → Action X (List TopicOffset)

pub record PartitionLag : Type 0 where
  pub topic : String
  pub partition : ℕ
  pub lag : ℕ
  pub current_offset : String
  pub high_watermark : String

pub record ConsumerLag : Type 0 where
  pub total_lag : ℤ
  pub partition_lag : List PartitionLag

-- `topicOffsets.find`
unfoldable pub find_partition : ℕ → List TopicOffset → Option TopicOffset
find_partition partition [] = none
find_partition partition (o ∷ os) =
    if o.partition == partition then some o else find_partition partition os

module _ (big_int : String → Outcome ℤ) (to_string : ℤ → String) where
  -- What a partition whose two offsets are read adds to the result.
  unfoldable pub push_lag : String → ℕ → ℤ → ℤ → ConsumerLag → ConsumerLag
  push_lag topic partition current high l = record {
    total_lag = l.total_lag +ℤ pos (pos_part (high -ℤ current));
    partition_lag =
        l.partition_lag
        ++ record {
          topic = topic;
          partition = partition;
          lag = pos_part (high -ℤ current);
          current_offset = to_string current;
          high_watermark = to_string high;
        }
          ∷ [];
  }

  abbrev measure : String → ℕ → String → TopicOffset → Action ConsumerLag (Unit {0})
  measure topic partition committed meta = do
    current ← (λ l. (big_int committed, l))
    high ← (λ l. (big_int meta.high, l))
    modify (push_lag topic partition current high)

  abbrev measure_known :
      String → ℕ → Option String → Option TopicOffset → Action ConsumerLag (Unit {0})
  measure_known topic partition (some committed) (some meta) =
      if str_eq committed "-1" then pure tt else measure topic partition committed meta
  measure_known topic partition committed meta = pure tt

  -- The two inner loops.
  unfoldable pub measure_partitions :
      String → List TopicOffset → List PartitionOffset → Action ConsumerLag (Unit {0})
  measure_partitions topic heads [] = pure tt
  measure_partitions topic heads (p ∷ ps) = do
    measure_known topic p.partition p.offset (find_partition p.partition heads)
    measure_partitions topic heads ps

  unfoldable pub measure_groups :
      String → List TopicOffset → List (List PartitionOffset) → Action ConsumerLag (Unit {0})
  measure_groups topic heads [] = pure tt
  measure_groups topic heads (g ∷ gs) = do
    measure_partitions topic heads g
    measure_groups topic heads gs

  module _ {X : Type 0} (admin : Admin X) where
    abbrev on_admin : {A : Type 0} → Action X A → Action (ConsumerLag × X) A
    on_admin m (l, x) = let (r, x') = m x in (r, (l, x'))

    abbrev on_lag : {A : Type 0} → Action ConsumerLag A → Action (ConsumerLag × X) A
    on_lag m (l, x) = let (r, l') = m l in (r, (l', x))

    -- The body of the loop over the topics; its errors are logged.
    unfoldable pub measure_topic : String → String → Action (ConsumerLag × X) (Unit {0})
    measure_topic group topic =
        try_catch
          (do
            offsets ← on_admin (admin.fetch_offsets group topic)
            heads ← on_admin (admin.fetch_topic_offsets topic)
            on_lag (measure_groups topic heads offsets))
          (λ e. pure tt)

    -- The outer `try` block, on the one topic of the list.
    abbrev measure_all : String → Action (ConsumerLag × X) ConsumerLag
    measure_all group = do
      on_admin admin.connect
      measure_topic group "notifications"
      on_admin admin.disconnect
      gets (λ s. s.0)

    abbrev nothing_yet : ConsumerLag
    nothing_yet = record { total_lag = pos 0; partition_lag = [] }

    abbrev unknown : ConsumerLag
    unknown = record { total_lag = negsuc 0; partition_lag = [] }

    unfoldable pub get_consumer_lag : String → X → Outcome ConsumerLag × X
    get_consumer_lag group x =
        let (r, s) = try_catch (measure_all group) (λ e. pure unknown) (nothing_yet, x) in (r, s.1)
