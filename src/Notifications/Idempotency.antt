-- ===== src/Notifications/Idempotency.antt =====
-- A second request with the same idempotency key.
use high_throughput_notifica.Redis
use high_throughput_notifica.Notifications
use high_throughput_notifica.Kafka.Schema.{Json}
use high_throughput_notifica.Notifications.{Services}
use high_throughput_notifica.Kafka.Producer.{ProducerRecord, send_notification, send_to_topic}
use high_throughput_notifica.Kafka.Schema.{Json, NotificationMessage}
use high_throughput_notifica.Notifications.{Row, publish_to_kafka}
use high_throughput_notifica.Prelude.{String, some, ◌≡◌}
use high_throughput_notifica.Prelude.Action.{returned}
use high_throughput_notifica.Redis.Store.{Store}
use high_throughput_notifica.Kafka.Producer.{Headers, notification_record}
use high_throughput_notifica.Kafka.Schema.{notification}
use high_throughput_notifica.Notifications.{
  CreateNotificationDto, NotificationResponseDto, create_new, fallback_headers,
  idempotency_cache_key, map_to_response_dto, new_row, store_idempotency, to_kafka_message,
}
use high_throughput_notifica.Prelude.{Option, [], arith, inl, inr, true, ◌∙◌, ◌∷◌}
use high_throughput_notifica.Prelude.Action.{Outcome-cases}
use high_throughput_notifica.Redis.{value}
use high_throughput_notifica.Retry.Service.Routing.{single}
use high_throughput_notifica.Notifications.{answer_duplicate, check_idempotency, or_uuid}
use high_throughput_notifica.Prelude.{eq_iff, truthy_text}
use high_throughput_notifica.Redis.{Stored}
use high_throughput_notifica.Notifications.{answer}
use high_throughput_notifica.Prelude.{Bool-cases, or_text, or_text-truthy, truthy}
use high_throughput_notifica.Prelude.{none}

module _ {X : Type 0} (services : Services X) where
  open services use {now, uuid, broker, table, redis}

  -- What idempotency relies on beside the laws of Redis: clock, random texts, broker and table are
  -- not Redis, and a row is found under its id.
  pub record Apart (store : Store redis) : Type 0 where
    pub clock_apart : (x : X) (k : String) → store.stored (now x).1 k ≡ store.stored x k
    pub uuid_apart : (x : X) (k : String) → store.stored (uuid x).1 k ≡ store.stored x k
    pub broker_apart :
        (r : ProducerRecord) (x : X) (k : String)
        → store.stored (broker.send r x).1 k ≡ store.stored x k
    pub find_apart :
        (id : String) (x : X) (k : String)
        → store.stored (table.find_unique id x).1 k ≡ store.stored x k
    pub find_by_id :
        (id : String) (x : X) {row : Row}
        → (table.find_unique id x).0 ≡ returned (some row)
        → row.id ≡ id

  module _ (store : Store redis) (apart : Apart store) where
    open store use {stored, get_reads, setex_writes}
    open apart use {clock_apart, uuid_apart, broker_apart, find_apart, find_by_id}

    stored-send_notification :
        (m : NotificationMessage) (x : X) (k : String)
        → stored (send_notification broker m x).1 k ≡ stored x k
    unfolding send_notification
    stored-send_notification m x k = ground (
      arith,
      broker_apart
          (record { topic = "notifications"; gzip = true; messages = notification_record m ∷ [] }) x
          k,
    )

    stored-send_to_topic :
        (topic : String) (key : Option String) (v : Json) (h : Headers) (x : X) (k : String)
        → stored (send_to_topic broker topic key v h x).1 k ≡ stored x k
    unfolding send_to_topic
    stored-send_to_topic topic key v h x k = ground (arith, broker_apart (single topic key v h) x k)

    stored-publish_to_kafka :
        (m : NotificationMessage) (x : X) (k : String)
        → stored (publish_to_kafka services m x).1 k ≡ stored x k
    unfolding publish_to_kafka
    stored-publish_to_kafka m x k =
        let y = (send_notification broker m x).1 in
        elim (Outcome-cases (send_notification broker m x).0) [
          | inl (d, e) ↦ ground (arith, stored-send_notification m x k)
          | inr (err, e) ↦ ground (
            arith,
            stored-send_notification m x k,
            stored-send_to_topic "notifications-retry" m.user_id (notification m)
                (fallback_headers err) y k,
          )
        ]

    -- Publishing, as far as it can be seen in Redis.
    stored-publish_at :
        (row : Row) (dto : CreateNotificationDto) (x : X) (k : String)
        → stored (publish_to_kafka services (to_kafka_message (now x).0 row dto) (now x).1).1 k
          ≡ stored x k
    stored-publish_at row dto x k =
        stored-publish_to_kafka (to_kafka_message (now x).0 row dto) (now x).1 k ∙ clock_apart x k

    -- A new notification leaves its id under its key.
    create_new-stored :
        (dto : CreateNotificationDto) (key correlation : String) (x x' : X)
        (r : NotificationResponseDto)
        → create_new services dto key correlation x ≡ (returned r, x')
        → stored x' (idempotency_cache_key key) ≡ some (Redis.encoded (Redis.value r.id))
    unfolding create_new store_idempotency Redis.set map_to_response_dto
    create_new-stored dto key correlation x x' r h =
        elim (Outcome-cases (table.create (new_row dto key correlation) x).0) [
          | inl (row, e) ↦
              let x₁ : X = (table.create (new_row dto key correlation) x).1 in
              let ck = idempotency_cache_key key in
              let x₂ : X = (redis.setex ck 86400 (Redis.encoded (Redis.value row.id)) x₁).1 in
              ground (
                arith,
                setex_writes ck 86400 (Redis.encoded (Redis.value row.id)) x₁ ck,
                eq_iff ck ck,
                stored-publish_at row dto x₂ ck,
              )
          | inr (err, e) ↦ ground arith
        ]

    stored-or_uuid :
        (given : Option String) (x : X) (k : String)
        → stored (or_uuid services given x).1 k ≡ stored x k
    stored-or_uuid given x k = ground (arith, uuid_apart x k)

    answer_remembered :
        (dto : CreateNotificationDto) (key id correlation : String) (y : X)
        {o : Option (Redis.Stored String)} {row : Row}
        → truthy_text id ≡ true
        → stored y (idempotency_cache_key key) ≡ some (Redis.encoded (Redis.value id))
        → (redis.get (idempotency_cache_key key) y).0 ≡ returned o
        → (table.find_unique id (redis.get (idempotency_cache_key key) y).1).0 ≡ returned (some row)
        → answer services dto key correlation y ≡ (
          returned (map_to_response_dto row),
          (table.find_unique id (redis.get (idempotency_cache_key key) y).1).1,
        )
    unfolding answer check_idempotency answer_duplicate Redis.get
    answer_remembered dto key id correlation y ti s g f =
        ground (arith, get_reads (idempotency_cache_key key) y g)

    -- A request that brings its key goes on with it.
    create-answer :
        (dto : CreateNotificationDto) (key : String) (y y' : X) (r : NotificationResponseDto)
        → dto.idempotency_key ≡ some key
        → truthy_text key ≡ true
        → ((correlation : String)
            → answer services dto key correlation (or_uuid services dto.correlation_id y).1
              ≡ (returned r, y'))
        → Notifications.create services dto y ≡ (returned r, y')
    unfolding Notifications.create
    create-answer dto key y y' r k tk a = elim (Bool-cases (truthy dto.correlation_id)) [
      | inl given ↦ ground (arith, or_text-truthy key "", a (or_text dto.correlation_id ""))
      | inr drawn ↦ ground (arith, or_text-truthy key "", a (uuid y).0)
    ]

    -- A request whose key is remembered is answered with the notification of that key: it reads
    -- Redis and the table once each, and nothing is inserted or published.
    pub create_remembered :
        (dto : CreateNotificationDto) (key id : String) (y y₁ : X)
        {o : Option (Redis.Stored String)} {row : Row}
        → dto.idempotency_key ≡ some key
        → truthy_text key ≡ true
        → truthy_text id ≡ true
        → stored y (idempotency_cache_key key) ≡ some (Redis.encoded (Redis.value id))
        → (or_uuid services dto.correlation_id y).1 ≡ y₁
        → (redis.get (idempotency_cache_key key) y₁).0 ≡ returned o
        → (table.find_unique id (redis.get (idempotency_cache_key key) y₁).1).0
          ≡ returned (some row)
        → Notifications.create services dto y ≡ (
          returned (map_to_response_dto row),
          (table.find_unique id (redis.get (idempotency_cache_key key) y₁).1).1,
        )
    create_remembered dto key id y y₁ k tk ti s u g f =
        create-answer dto key y _ _ k tk λ correlation. rw u (
          answer_remembered dto key id correlation y₁ ti
            (rw (← u) (stored-or_uuid dto.correlation_id y (idempotency_cache_key key) ∙ s)) g f)

    answer_new :
        (dto : CreateNotificationDto) (key correlation : String) (y y' : X)
        (r : NotificationResponseDto)
        → stored y (idempotency_cache_key key) ≡ none
        → answer services dto key correlation y ≡ (returned r, y')
        → stored y' (idempotency_cache_key key) ≡ some (Redis.encoded (Redis.value r.id))
    unfolding answer check_idempotency Redis.get
    answer_new dto key correlation y y' r n h =
        let ck = idempotency_cache_key key in
        elim (Outcome-cases (redis.get ck y).0) [
          | inl (o, e) ↦ ground (
            arith,
            get_reads ck y e,
            create_new-stored dto key correlation (redis.get ck y).1 y' r,
          )
          | inr (err, e) ↦ absurd (ground arith)
        ]

    create_new_key :
        (dto : CreateNotificationDto) (key : String) (y y' : X) (r : NotificationResponseDto)
        → dto.idempotency_key ≡ some key
        → truthy_text key ≡ true
        → stored y (idempotency_cache_key key) ≡ none
        → Notifications.create services dto y ≡ (returned r, y')
        → stored y' (idempotency_cache_key key) ≡ some (Redis.encoded (Redis.value r.id))
    unfolding Notifications.create
    create_new_key dto key y y' r k tk n h =
        let ck = idempotency_cache_key key in
        let y₁ : X = (or_uuid services dto.correlation_id y).1 in
        elim (Bool-cases (truthy dto.correlation_id)) [
          | inl given ↦ ground (
            arith,
            or_text-truthy key "",
            stored-or_uuid dto.correlation_id y ck,
            answer_new dto key (or_text dto.correlation_id "") y₁ y' r,
          )
          | inr drawn ↦ ground (
            arith,
            or_text-truthy key "",
            stored-or_uuid dto.correlation_id y ck,
            answer_new dto key (uuid y).0 y₁ y' r,
          )
        ]

    -- A request under a key not seen before, and a second one under the same key while Redis keeps
    -- what the first stored: the second is answered with the notification of the first, and inserts
    -- and publishes nothing. (Key and id must not be '', and Redis and the table
    -- must answer, the table with a row.)
    pub create_twice :
        (dto dto' : CreateNotificationDto) (key : String) (x y z z₁ : X)
        (r : NotificationResponseDto) {o : Option (Redis.Stored String)} {row : Row}
        → dto.idempotency_key ≡ some key
        → dto'.idempotency_key ≡ some key
        → truthy_text key ≡ true
        → truthy_text r.id ≡ true
        → stored x (idempotency_cache_key key) ≡ none
        → Notifications.create services dto x ≡ (returned r, y)
        → stored z (idempotency_cache_key key) ≡ stored y (idempotency_cache_key key)
        → (or_uuid services dto'.correlation_id z).1 ≡ z₁
        → (redis.get (idempotency_cache_key key) z₁).0 ≡ returned o
        → (table.find_unique r.id (redis.get (idempotency_cache_key key) z₁).1).0
          ≡ returned (some row)
        → (row.id ≡ r.id)
          × (Notifications.create services dto' z ≡ (
            returned (map_to_response_dto row),
            (table.find_unique r.id (redis.get (idempotency_cache_key key) z₁).1).1,
          ))
    create_twice dto dto' key x y z z₁ r k k' tk ti n h s u g f = (
      find_by_id r.id (redis.get (idempotency_cache_key key) z₁).1 f,
      create_remembered dto' key r.id z z₁ k' tk ti (s ∙ create_new_key dto key x y r k tk n h) u g
          f,
    )
