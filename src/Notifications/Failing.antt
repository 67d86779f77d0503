-- ===== src/Notifications/Failing.antt =====
-- What a request that fails has published.
use high_throughput_notifica.Redis
use high_throughput_notifica.Notifications.{
  CreateNotificationDto, NewRow, Services, answer, answer_duplicate, check_idempotency, create,
  create_new, idempotency_cache_key, new_row, or_generated, or_uuid, store_idempotency,
  to_kafka_message,
}
use high_throughput_notifica.Notifications.Creating.{publish_to_kafka_returns}
use high_throughput_notifica.Prelude.{Option, Option-cases, String, arith, inl, inr, ℕ, ◌≡◌}
use high_throughput_notifica.Prelude.Action.{Error, Outcome-cases, threw}
use high_throughput_notifica.Redis.{value}
use high_throughput_notifica.Retry.Service.Routing.{Log}

module _ {X : Type 0} (services : Services X) where
  open services use {now, uuid, broker, table, redis}

  -- Random numbers, the database and Redis do not change the topics.
  pub record Quiet (log : Log now broker) : Type 0 where
    pub uuid_quiet : (x : X) → log.topics (uuid x).1 ≡ log.topics x
    pub insert_quiet : (r : NewRow) (x : X) → log.topics (table.create r x).1 ≡ log.topics x
    pub find_quiet : (id : String) (x : X) → log.topics (table.find_unique id x).1 ≡ log.topics x
    pub get_quiet : (k : String) (x : X) → log.topics (redis.get k x).1 ≡ log.topics x
    pub setex_quiet :
        (k : String) (ttl : ℕ) (v : Redis.Stored String) (x : X)
        → log.topics (redis.setex k ttl v x).1 ≡ log.topics x

  module _ (log : Log now broker) (quiet : Quiet log) where
    open log use {topics, untouched}
    open quiet use {uuid_quiet, insert_quiet, find_quiet, get_quiet, setex_quiet}

    topics-create_new :
        (dto : CreateNotificationDto) (key correlation : String) (x : X) (e : Error)
        → (create_new services dto key correlation x).0 ≡ threw e
        → topics (create_new services dto key correlation x).1 ≡ topics x
    unfolding create_new store_idempotency Redis.set
    topics-create_new dto key correlation x e h =
        let new : NewRow = new_row dto key correlation in
        let x₁ : X = (table.create new x).1 in
        elim (Outcome-cases (table.create new x).0) [
          | inl (row, made) ↦
              let k : String = idempotency_cache_key key in
              let v = Redis.encoded (Redis.value row.id) in
              let x₂ : X = (redis.setex k 86400 v x₁).1 in
              ground (
                arith,
                insert_quiet new x,
                setex_quiet k 86400 v x₁,
                publish_to_kafka_returns services (to_kafka_message (now x₂).0 row dto) (now x₂).1,
              )
          | inr (err, lost) ↦ ground (arith, insert_quiet new x)
        ]

    topics-answer_duplicate :
        (id : String) (x : X) → topics (answer_duplicate services id x).1 ≡ topics x
    unfolding answer_duplicate
    topics-answer_duplicate id x = ground (arith, find_quiet id x)

    topics-check_idempotency :
        (key : String) (x : X) → topics (check_idempotency services key x).1 ≡ topics x
    unfolding check_idempotency Redis.get
    topics-check_idempotency key x = ground (arith, get_quiet (idempotency_cache_key key) x)

    topics-answer :
        (dto : CreateNotificationDto) (key correlation : String) (x : X) (e : Error)
        → (answer services dto key correlation x).0 ≡ threw e
        → topics (answer services dto key correlation x).1 ≡ topics x
    unfolding answer
    topics-answer dto key correlation x e h =
        let y : X = (check_idempotency services key x).1 in
        elim (Outcome-cases (check_idempotency services key x).0) [
          | inl (o, found) ↦ elim (Option-cases o) [
            | inl new ↦
                ground
                  (arith, topics-check_idempotency key x, topics-create_new dto key correlation y e)
            | inr (id, known) ↦
                ground (arith, topics-check_idempotency key x, topics-answer_duplicate id y)
          ]
          | inr (err, lost) ↦ ground (arith, topics-check_idempotency key x)
        ]

    topics-or_uuid :
        (given : Option String) (x : X) → topics (or_uuid services given x).1 ≡ topics x
    topics-or_uuid given x = ground (arith, uuid_quiet x)

    topics-or_generated :
        (given : Option String) (user_id : String) (x : X)
        → topics (or_generated services given user_id x).1 ≡ topics x
    topics-or_generated given user_id x = ground (arith, untouched x, uuid_quiet (now x).1)

    -- A request that fails, wherever it fails, has published nothing.
    pub topics-create_failed :
        (dto : CreateNotificationDto) (x : X) (e : Error)
        → (create services dto x).0 ≡ threw e
        → topics (create services dto x).1 ≡ topics x
    unfolding create
    topics-create_failed dto x e h =
        let c = or_uuid services dto.correlation_id x in
        let k = or_generated services dto.idempotency_key dto.user_id c.1 in
        let first = topics-or_uuid dto.correlation_id x in
        let second = topics-or_generated dto.idempotency_key dto.user_id c.1 in
        elim (Outcome-cases c.0) [
          | inl (correlation, named) ↦ elim (Outcome-cases k.0) [
            | inl (key, chosen) ↦
                ground (arith, first, second, topics-answer dto key correlation k.1 e)
            | inr (err, lost) ↦ ground (arith, first, second)
          ]
          | inr (err, lost) ↦ ground (arith, first)
        ]
