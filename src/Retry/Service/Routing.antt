-- ===== src/Retry/Service/Routing.antt =====
-- Where a failed message goes: to the retry queue below five attempts, else to the dead letters.
use high_throughput_notifica.Prelude.{
  ℕ, zero, suc, refl, ◌⊎◌, ◌+◌, ◌≤◌, ◌<◌, String, ◌≡◌, false, Option, some, List, [], ◌∷◌, ◌++◌,
  arith,
}
use high_throughput_notifica.Prelude.Action.{returned, threw, Error}
use high_throughput_notifica.Kafka.Schema.{
  NotificationMessage, notification, dead_letter, or_zero, stringify, Json,
}
use high_throughput_notifica.Kafka.Producer.{
  Broker, RecordMetadata, ProducerRecord, Headers, send_to_topic,
}
use high_throughput_notifica.Retry.Breaker.{Clock}
use high_throughput_notifica.Retry.Service.{
  calculate_backoff_delay, dlq_headers, retry_headers, send_to_dlq, send_to_retry_queue,
}

-- What the routing relies on of the broker: `topics` are the records that it has accepted; a send
-- that returns appends its record, one that throws does not, and the clock is no broker.
pub record Log {X : Type 0} (now : Clock X) (broker : Broker X) : Type 0 where
  pub topics : X → List ProducerRecord
  pub accepted :
      (r : ProducerRecord) (x : X) {ms : List RecordMetadata}
      → (broker.send r x).0 ≡ returned ms
      → topics (broker.send r x).1 ≡ topics x ++ r ∷ []
  pub refused :
      (r : ProducerRecord) (x : X) {e : Error}
      → (broker.send r x).0 ≡ threw e
      → topics (broker.send r x).1 ≡ topics x
  pub untouched : (x : X) → topics (now x).1 ≡ topics x

abbrev pub single : String → Option String → Json → Headers → ProducerRecord
single topic key value headers = record {
  topic = topic;
  gzip = false;
  messages = record { key = key; value = stringify value; headers = headers } ∷ [];
}

-- One second, doubled with each attempt: 1000, 2000, 4000, 8000, ... milliseconds.
unfoldable pub doubled : ℕ → ℕ
doubled zero = 1000
doubled (suc n) = doubled n + doubled n

calculate_backoff_delay-doubled : (n : ℕ) → calculate_backoff_delay n ≡ doubled n
unfolding calculate_backoff_delay doubled
calculate_backoff_delay-doubled zero = refl
calculate_backoff_delay-doubled (suc n) = omega (arith, calculate_backoff_delay-doubled n)

-- The record for the retry queue: the message with its count raised, and the doubled delay.
abbrev pub retry_record : NotificationMessage → String → ProducerRecord
retry_record m error =
    let count = or_zero m.retry_count + 1 in
    single "notifications-retry" m.user_id (notification (record m { retry_count = some count }))
      (retry_headers count (doubled (or_zero m.retry_count)) error)

-- The record for the dead letter queue: the message as it was, with the reason.
abbrev pub dlq_record : NotificationMessage → String → String → ℕ → ProducerRecord
dlq_record m error reason failed_at =
    single "notifications-dlq" m.user_id
      (dead_letter (record {
        notification = m;
        error = error;
        reason = reason;
        failed_at = failed_at;
        retry_count = or_zero m.retry_count;
      }))
      (dlq_headers m error reason)

module _ {X : Type 0} (now : Clock X) (broker : Broker X) where
  -- Routing a failed message never throws, whatever the broker does.
  pub send_to_retry_queue_returns :
      (m : NotificationMessage) (error : String) (x : X)
      → (send_to_retry_queue now broker m error x).0 ≡ returned tt
  unfolding send_to_retry_queue send_to_dlq
  send_to_retry_queue_returns m error x = ground arith

  module _ (log : Log now broker) where
    open log use {topics, accepted, refused, untouched}

    topics-send_to_dlq :
        (m : NotificationMessage) (error reason : String) (x : X) {ms : List RecordMetadata}
        → (broker.send (dlq_record m error reason (now x).0) (now x).1).0 ≡ returned ms
        → topics (send_to_dlq now broker m error reason x).1
          ≡ topics x ++ dlq_record m error reason (now x).0 ∷ []
    unfolding send_to_dlq send_to_topic
    topics-send_to_dlq m error reason x h =
        ground (arith, accepted (dlq_record m error reason (now x).0) (now x).1 h, untouched x)

    -- While the count of the message is below four and the retry queue accepts it, the topics
    -- grow by the retry record and nothing else.
    pub topics-send_to_retry_queue :
        (m : NotificationMessage) (error : String) (x : X) {ms : List RecordMetadata}
        → or_zero m.retry_count < 4
        → (broker.send (retry_record m error) x).0 ≡ returned ms
        → topics (send_to_retry_queue now broker m error x).1
          ≡ topics x ++ retry_record m error ∷ []
    unfolding send_to_retry_queue send_to_topic
    topics-send_to_retry_queue m error x b h = ground (
      arith,
      accepted (retry_record m error) x h,
      calculate_backoff_delay-doubled (or_zero m.retry_count),
    )

    -- From a count of four on, the topics grow by one dead letter that holds the message
    -- unchanged, if the dead letter queue accepts it.
    pub topics-send_to_retry_queue_exhausted :
        (m : NotificationMessage) (error : String) (x : X) {ms : List RecordMetadata}
        → 4 ≤ or_zero m.retry_count
        → (broker.send (dlq_record m error "max_retries_exceeded" (now x).0) (now x).1).0
          ≡ returned ms
        → topics (send_to_retry_queue now broker m error x).1
          ≡ topics x ++ dlq_record m error "max_retries_exceeded" (now x).0 ∷ []
    unfolding send_to_retry_queue
    topics-send_to_retry_queue_exhausted m error x b h =
        ground (arith, topics-send_to_dlq m error "max_retries_exceeded" x h)

    -- What became of the topics: one dead letter more, or nothing, and then because the broker
    -- refused that dead letter.
    abbrev Buried : NotificationMessage → String → String → X → X → Type 0
    Buried m error reason x x' =
        ((t : ℕ) × (topics x' ≡ topics x ++ dlq_record m error reason t ∷ []))
        ⊎ ((t : ℕ) × (y : X) × (e : Error) × ((broker.send (dlq_record m error reason t) y).0
              ≡ threw e)
            × (topics x' ≡ topics x))

    -- Where a failed message with a given count goes.
    abbrev pub Routed : NotificationMessage → String → X → X → Type 0
    Routed m error x x' =
        ((or_zero m.retry_count < 4) × (topics x' ≡ topics x ++ retry_record m error ∷ []))
        ⊎ ((or_zero m.retry_count < 4) × Buried m error "retry_queue_failure" x x')
        ⊎ ((4 ≤ or_zero m.retry_count) × Buried m error "max_retries_exceeded" x x')
