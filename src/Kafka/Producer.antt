-- ===== src/Kafka/Producer.antt =====
-- src/kafka/kafka-producer.service.ts. The kafkajs producer is the parameter `Broker`.
pub mod Transaction
use high_throughput_notifica.Prelude.{
  ℕ, String, ◌≡◌, Bool, true, false, Option, none, some, List, [], ◌∷◌, map,
}
use high_throughput_notifica.Prelude.Action.{
  Error, failure, Outcome, returned, threw, Action, pure, throw, try_catch, ◌>>=◌, ◌>>◌,
}
use high_throughput_notifica.Kafka.Schema.{NotificationMessage, Json, Text, notification, stringify}

pub record RecordMetadata : Type 0 where
  pub topic_name : String
  pub partition : ℕ
  pub base_offset : ℕ

abbrev pub Headers : Type 0
Headers = List (String × Option String)

pub record Message : Type 0 where
  pub key : Option String
  pub value : Text
  pub headers : Headers

pub record ProducerRecord : Type 0 where
  pub topic : String
  pub gzip : Bool
  pub messages : List Message

-- The kafkajs producer, over the state `X` of everything outside the program.
pub record Broker (X : Type 0) : Type 0 where
  pub send : ProducerRecord → Action X (List RecordMetadata)

-- `metadata[0].topicName` in the log line.
abbrev log_first : {X : Type 0} → List RecordMetadata → Action X (Unit {0})
log_first [] = throw (failure "Cannot read properties of undefined (reading 'topicName')")
log_first (m ∷ ms) = pure tt

unfoldable pub notification_record : NotificationMessage → Message
notification_record m = record {
  key = m.user_id;
  value = stringify (notification m);
  headers =
      ("idempotency-key", m.idempotency_key)
      ∷ ("message-type", m.type)
      ∷ ("priority", m.priority)
      ∷ [];
}

module _ {X : Type 0} (broker : Broker X) where
  unfoldable pub send_notification : NotificationMessage → Action X (List RecordMetadata)
  send_notification m =
      try_catch
        (do
          metadata ← broker.send (record {
            topic = "notifications";
            gzip = true;
            messages = notification_record m ∷ [];
          })
          log_first metadata
          pure metadata)
        (λ e. throw e)

  unfoldable pub send_notification_batch : List NotificationMessage → Action X (List RecordMetadata)
  send_notification_batch ms =
      try_catch
        (broker.send
          (record { topic = "notifications"; gzip = true; messages = map notification_record ms }))
        (λ e. throw e)

  unfoldable pub send_to_topic :
      String → Option String → Json → Headers → Action X (List RecordMetadata)
  send_to_topic topic key value headers =
      try_catch
        (broker.send (record {
          topic = topic;
          gzip = false;
          messages = record { key = key; value = stringify value; headers = headers } ∷ [];
        }))
        (λ e. throw e)
