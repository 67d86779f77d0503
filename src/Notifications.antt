-- ===== src/Notifications.antt =====
-- src/notification/notification.service.ts and its controller. randomUUID() is the parameter `Uuid`;
-- the attributes of spans and log lines are not modelled.
mod Dto
pub mod Channels
pub mod Creating
pub mod Failing
pub mod Idempotency
pub use Dto.*
use high_throughput_notifica.Redis
use mathlib.Core.Option
use high_throughput_notifica.Cache.{get, set}
use high_throughput_notifica.Kafka.Producer.{Broker, Headers, send_notification, send_to_topic}
use high_throughput_notifica.Kafka.Schema.{NotificationMessage, Payload, notification, object}
use high_throughput_notifica.Prelude.{
  Option, String, [], concat, decimal, false, if◌then◌else◌, map, none, or_text, some, true, truthy,
  truthy_text, ℕ, ◌*◌, ◌==◌, ◌∷◌,
}
use high_throughput_notifica.Prelude.Action.{
  Action, Error, failure, http, limited, non_error, pure, returned, throw, try_catch, ◌>>=◌, ◌>>◌,
}
use high_throughput_notifica.Redis.{Client, number, value}
use high_throughput_notifica.Retry.Breaker.{Clock}

abbrev pub Uuid : Type 0 → Type 0
Uuid X = X → String × X

unfoldable pub map_to_response_dto : Row → NotificationResponseDto
map_to_response_dto r = record {
  id = r.id;
  user_id = r.user_id;
  tenant_id = r.tenant_id;
  channel = r.channel;
  type = r.type;
  priority = r.priority;
  status = r.status;
  scheduled_for = r.scheduled_for;
  created_at = r.created_at;
  updated_at = r.updated_at;
  correlation_id = r.correlation_id;
  idempotency_key = r.idempotency_key;
}

unfoldable pub to_kafka_message : ℕ → Row → CreateNotificationDto → NotificationMessage
to_kafka_message now r dto = record {
  id = some r.id;
  version = some "1.0.0";
  timestamp = some now;
  idempotency_key = some r.idempotency_key;
  user_id = some r.user_id;
  tenant_id = r.tenant_id;
  type = some (type_value dto.type);
  channel = some (channel_value dto.channel);
  priority = some r.priority;
  status = some r.status;
  scheduled_for = r.scheduled_for;
  expires_at = none;
  payload = object dto.payload;
  correlation_id = some r.correlation_id;
  causation_id = r.causation_id;
  retry_count = some 0;
}

-- `dto.scheduledFor ? SCHEDULED : PENDING`
abbrev pub initial_status : Option ℕ → String
initial_status none = "PENDING"
initial_status (some t) = "SCHEDULED"

abbrev pub priority_or_medium : Option NotificationPriority → NotificationPriority
priority_or_medium none = medium
priority_or_medium (some p) = p

unfoldable pub new_row : CreateNotificationDto → String → String → NewRow
new_row dto idempotency_key correlation_id = record {
  user_id = dto.user_id;
  tenant_id = dto.tenant_id;
  type = type_value dto.type;
  channel = channel_value dto.channel;
  status = initial_status dto.scheduled_for;
  priority = priority_value (priority_or_medium dto.priority);
  payload = dto.payload;
  scheduled_for = dto.scheduled_for;
  idempotency_key = idempotency_key;
  correlation_id = correlation_id;
}

abbrev pub idempotency_cache_key : String → String
idempotency_cache_key key = concat "idempotency:" key

-- A cached id that is '' or 0 is falsy.
abbrev cached_id : Option (Redis.Json String) → Option String
cached_id none = none
cached_id (some (Redis.value s)) = if truthy_text s then some s else none
cached_id (some (Redis.number n)) = if n == 0 then none else some (decimal n)

abbrev message_or_unknown : Error → String
message_or_unknown (failure s) = or_text (some s) "Unknown error"
message_or_unknown (http n s) = or_text (some s) "Unknown error"
message_or_unknown (limited s r) = or_text (some s) "Unknown error"
message_or_unknown non_error = "Unknown error"

abbrev pub fallback_headers : Error → Headers
fallback_headers e =
    ("retry-reason", some "producer-failure")
    ∷ ("original-error", some (message_or_unknown e))
    ∷ ("retry-count", some "0")
    ∷ []

-- TracingService.withSpan (src/common/tracing/tracing.service.ts), without the span.
abbrev pub with_span : {X : Type 0} {A : Type 0} → Action X A → Action X A
with_span fn = try_catch fn (λ e. throw e)

pub record Services (X : Type 0) : Type 0 where
  pub now : Clock X
  pub uuid : Uuid X
  pub broker : Broker X
  pub table : Table X
  pub redis : Redis.Client X String

module _ {X : Type 0} (services : Services X) where
  open services use {now, uuid, broker, table, redis}

  abbrev time : Action X ℕ
  time x = let (n, x') = now x in (returned n, x')

  abbrev random : Action X String
  random x = let (u, x') = uuid x in (returned u, x')

  unfoldable pub check_idempotency : String → Action X (Option String)
  check_idempotency key = do
    found ← Redis.get redis (idempotency_cache_key key)
    pure (cached_id found)

  unfoldable pub store_idempotency : String → String → Action X (Unit {0})
  store_idempotency key id =
      Redis.set redis (idempotency_cache_key key) (Redis.value id) (some 86400)

  -- To the topic 'notifications'; if that fails, to the retry queue; if that fails too, nowhere.
  unfoldable pub publish_to_kafka : NotificationMessage → Action X (Unit {0})
  publish_to_kafka m =
      try_catch (do send_notification broker m; pure tt)
        (λ e.
          try_catch
            (do
              send_to_topic broker "notifications-retry" m.user_id (notification m)
                  (fallback_headers e)
              pure tt)
            (λ e'. pure tt))

  -- `given || randomUUID()`
  abbrev pub or_uuid : Option String → Action X String
  or_uuid given = if truthy given then pure (or_text given "") else random

  abbrev generated_key : String → Action X String
  generated_key user_id = do
    t ← time
    u ← random
    pure (concat user_id (concat "-" (concat (decimal t) (concat "-" u))))

  abbrev pub or_generated : Option String → String → Action X String
  or_generated given user_id =
      if truthy given then pure (or_text given "") else generated_key user_id

  abbrev or_conflict : Option Row → Action X NotificationResponseDto
  or_conflict none = throw (http 409 "Duplicate request detected but notification not found")
  or_conflict (some r) = pure (map_to_response_dto r)

  -- A key that was seen before: the stored notification is the answer.
  unfoldable pub answer_duplicate : String → Action X NotificationResponseDto
  unfolding map_to_response_dto
  answer_duplicate id = do found ← table.find_unique id; or_conflict found

  -- A new key: insert, remember the key, publish.
  unfoldable pub create_new :
      CreateNotificationDto → String → String → Action X NotificationResponseDto
  unfolding map_to_response_dto
  create_new dto idempotency_key correlation_id = do
    row ← with_span (table.create (new_row dto idempotency_key correlation_id))
    store_idempotency idempotency_key row.id
    t ← time
    with_span (publish_to_kafka (to_kafka_message t row dto))
    pure (map_to_response_dto row)

  abbrev duplicate_or_new :
      CreateNotificationDto → String → String → Option String → Action X NotificationResponseDto
  duplicate_or_new dto idempotency_key correlation_id (some id) = answer_duplicate id
  duplicate_or_new dto idempotency_key correlation_id none =
      create_new dto idempotency_key correlation_id

  -- From the look-up of the key on.
  unfoldable pub answer : CreateNotificationDto → String → String → Action X NotificationResponseDto
  answer dto idempotency_key correlation_id = do
    existing ← with_span (check_idempotency idempotency_key)
    duplicate_or_new dto idempotency_key correlation_id existing

  unfoldable pub create : CreateNotificationDto → Action X NotificationResponseDto
  create dto = with_span (do
    correlation_id ← or_uuid dto.correlation_id
    idempotency_key ← or_generated dto.idempotency_key dto.user_id
    answer dto idempotency_key correlation_id)

  unfoldable pub find_one : String → Action X (Option NotificationResponseDto)
  unfolding map_to_response_dto
  find_one id = do found ← table.find_unique id; pure (Option.map map_to_response_dto found)

  -- The controller's GET: a missing notification is 404.
  abbrev or_not_found : String → Option NotificationResponseDto → Action X NotificationResponseDto
  or_not_found id none = throw (http 404 (concat "Notification with ID " (concat id " not found")))
  or_not_found id (some r) = pure r

  unfoldable pub get_notification : String → Action X NotificationResponseDto
  unfolding find_one
  get_notification id = do found ← find_one id; or_not_found id found
