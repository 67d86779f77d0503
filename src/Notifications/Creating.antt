-- ===== src/Notifications/Creating.antt =====
-- What the creation of a notification stores, publishes and answers.
use high_throughput_notifica.Redis
use high_throughput_notifica.Notifications.{
  Services, NotificationType, type_value, transactional, marketing, system, alert,
  NotificationChannel, channel_value, email, sms, push, webhook,
}
use high_throughput_notifica.Kafka.Producer.{
  ProducerRecord, RecordMetadata, notification_record, send_notification, send_to_topic,
}
use high_throughput_notifica.Kafka.Schema.{NotificationMessage, notification}
use high_throughput_notifica.Kafka.Serializer.{validate}
use high_throughput_notifica.Notifications.{
  CreateNotificationDto, Row, create_new, fallback_headers, idempotency_cache_key,
  map_to_response_dto, new_row, publish_to_kafka, store_idempotency, to_kafka_message,
}
use high_throughput_notifica.Prelude.{
  List, String, [], ap, arith, true, truthy_text, ℕ, ◌++◌, ◌∷◌, ◌≡◌, ◌≢◌,
}
use high_throughput_notifica.Prelude.Action.{Error, Outcome, returned, threw}
use high_throughput_notifica.Redis.{value}
use high_throughput_notifica.Retry.Service.Routing.{Log, single}
use high_throughput_notifica.Worker.{validate_message}
use high_throughput_notifica.Kafka.Schema.{type_values}
use high_throughput_notifica.Prelude.{false, includes, refl}

module _ {X : Type 0} (services : Services X) where
  open services use {now, broker, table, redis}

  -- Publishing never throws, whatever the broker does.
  pub publish_to_kafka_returns :
      (m : NotificationMessage) (x : X) → (publish_to_kafka services m x).0 ≡ returned tt
  unfolding publish_to_kafka
  publish_to_kafka_returns m x = ground arith

  -- Once the row is inserted and its key is remembered, the request succeeds and answers with the
  -- row, also while Kafka is down.
  pub create_new_returns :
      (dto : CreateNotificationDto) (key correlation : String) (row : Row) (x x₁ x₂ : X)
      → table.create (new_row dto key correlation) x ≡ (returned row, x₁)
      → redis.setex (idempotency_cache_key key) 86400 (Redis.encoded (Redis.value row.id)) x₁
        ≡ (returned tt, x₂)
      → create_new services dto key correlation x ≡ (
        returned (map_to_response_dto row),
        (publish_to_kafka services (to_kafka_message (now x₂).0 row dto) (now x₂).1).1,
      )
  unfolding create_new store_idempotency Redis.set
  create_new_returns dto key correlation row x x₁ x₂ c s =
      ground (arith, publish_to_kafka_returns (to_kafka_message (now x₂).0 row dto) (now x₂).1)

  module _ (log : Log now broker) where
    open log use {topics, accepted, refused}

    -- The record for the topic 'notifications'.
    abbrev pub published : NotificationMessage → ProducerRecord
    published m = record {
      topic = "notifications";
      gzip = true;
      messages = notification_record m ∷ [];
    }

    -- A message that the broker accepts on 'notifications', with metadata for it, is the one
    -- record that publishing adds to the topics.
    pub topics-publish_to_kafka :
        (m : NotificationMessage) (x : X) (d : RecordMetadata) (ds : List RecordMetadata)
        → (broker.send (published m) x).0 ≡ returned (d ∷ ds)
        → topics (publish_to_kafka services m x).1 ≡ topics x ++ published m ∷ []
    unfolding publish_to_kafka send_notification
    topics-publish_to_kafka m x d ds h = ground (arith, accepted (published m) x h)

    -- A message that 'notifications' refuses and the retry queue accepts is published once, there,
    -- with a count of 0.
    pub topics-publish_to_kafka_refused :
        (m : NotificationMessage) (x x₁ : X) (e : Error) (ms : List RecordMetadata)
        → broker.send (published m) x ≡ (threw e, x₁)
        → (broker.send
            (single "notifications-retry" m.user_id (notification m) (fallback_headers e))
            x₁).0
          ≡ returned ms
        → topics (publish_to_kafka services m x).1
          ≡ topics x
            ++ single "notifications-retry" m.user_id (notification m) (fallback_headers e) ∷ []
    unfolding publish_to_kafka send_notification send_to_topic
    topics-publish_to_kafka_refused m x x₁ e ms h k = ground (
      arith,
      refused (published m) x {e = e} (ap (λ (p : Outcome (List RecordMetadata) × X). p.0) h),
      accepted (single "notifications-retry" m.user_id (notification m) (fallback_headers e)) x₁ k,
    )

channel_truthy : (c : NotificationChannel) → truthy_text (channel_value c) ≡ true
channel_truthy email = refl
channel_truthy sms = refl
channel_truthy push = refl
channel_truthy webhook = refl

type_truthy : (t : NotificationType) → truthy_text (type_value t) ≡ true
type_truthy transactional = refl
type_truthy marketing = refl
type_truthy system = refl
type_truthy alert = refl

type_foreign : (t : NotificationType) → includes type_values (type_value t) ≡ false
type_foreign transactional = refl
type_foreign marketing = refl
type_foreign system = refl
type_foreign alert = refl

-- The message of a new notification passes the worker's validation, as long as the request named a
-- user and the row has an id.
pub validate_message-to_kafka_message :
    (t : ℕ) (row : Row) (dto : CreateNotificationDto)
    → truthy_text row.id ≡ true
    → truthy_text row.user_id ≡ true
    → validate_message (to_kafka_message t row dto) ≡ true
unfolding validate_message to_kafka_message
validate_message-to_kafka_message t row dto i u =
    ground (arith, channel_truthy dto.channel, type_truthy dto.type)

-- No message of the API passes the schema's own `validate`: its type is not one of the schema.
pub validate-to_kafka_message :
    (t : ℕ) (row : Row) (dto : CreateNotificationDto) (m : NotificationMessage)
    → validate (notification (to_kafka_message t row dto)) ≢ returned m
unfolding validate to_kafka_message
validate-to_kafka_message t row dto m h = ground (arith, type_foreign dto.type)
