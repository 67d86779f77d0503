-- ===== src/Tests/NotificationTests.antt =====
-- Requests of Ann to the API: a new one, a repeated one, and one for a push notification.
use high_throughput_notifica.Redis
use high_throughput_notifica.Notifications
use high_throughput_notifica.Notifications.{email, push}
use high_throughput_notifica.Kafka.Producer.{send_notification}
use high_throughput_notifica.Notifications.{
  CreateNotificationDto, NotificationResponseDto, Row, answer, check_idempotency, create_new,
  map_to_response_dto, new_row, publish_to_kafka, store_idempotency, to_kafka_message,
  transactional,
}
use high_throughput_notifica.Notifications.Idempotency.{create_twice}
use high_throughput_notifica.Prelude.{decimal, insert, lookup, none, refl, some, ◌≡◌}
use high_throughput_notifica.Prelude.Action.{returned}
use high_throughput_notifica.Tests.Messages.{letter}
use high_throughput_notifica.Tests.World.{
  World, dawn, redis-Store, row_of, services, services-Apart,
}
use high_throughput_notifica.Notifications.{fallback_headers, idempotency_cache_key}
use high_throughput_notifica.Notifications.Channels.{process_notification-Taken}
use high_throughput_notifica.Processor.{process_notification}
use high_throughput_notifica.Processor.Delivery.{Provider, service_name}
use high_throughput_notifica.Retry.Breaker.{new_breaker, opened}
use high_throughput_notifica.Retry.Service.{get_circuit_breaker}
use high_throughput_notifica.Prelude.{[], arith, ◌≢◌}
use high_throughput_notifica.Prelude.Action.{failure, threw}
use high_throughput_notifica.Redis.{value}
use high_throughput_notifica.Notifications.Failing.{Quiet, topics-create_failed}
use high_throughput_notifica.Prelude.{length}
use high_throughput_notifica.Tests.World.{broker-Log, pass_time, redis, tick}

abbrev request : Notifications.CreateNotificationDto
request = record {
  user_id = "ann";
  tenant_id = none;
  channel = email;
  type = transactional;
  priority = none;
  payload = letter;
  scheduled_for = none;
  idempotency_key = some "k1";
  correlation_id = some "c1";
}

abbrev created : World
created = (Notifications.create services request dawn).1

abbrev first_row : Notifications.Row
first_row = row_of 0 1000 (new_row request "k1" "c1")

create_twice_example :
    (first_row.id ≡ (map_to_response_dto first_row).id)
    × (Notifications.create services request created
        ≡ (returned (map_to_response_dto first_row), created))
unfolding Notifications.create Notifications.answer Notifications.create_new
    Notifications.check_idempotency Notifications.store_idempotency Notifications.publish_to_kafka
    send_notification Redis.get Redis.set lookup insert redis-Store new_row map_to_response_dto
    to_kafka_message decimal
create_twice_example =
    create_twice services redis-Store services-Apart request request "k1" dawn created created
      created (map_to_response_dto first_row) refl refl refl refl refl refl refl refl refl refl

-- A push notification.
abbrev pushed : Notifications.CreateNotificationDto
pushed = record request { channel = push }

all_closed : (p : Provider) → (get_circuit_breaker (service_name p) []).state ≢ opened
unfolding get_circuit_breaker new_breaker lookup
all_closed p = ground arith

process_notification-Taken_example :
    (push ≡ push)
    × (process_notification pass_time tick (to_kafka_message 1000 first_row pushed) ([], dawn)
        ≡ (threw (failure "Unsupported notification channel: PUSH"), ([], dawn)))
process_notification-Taken_example =
    process_notification-Taken pass_time tick 1000 first_row pushed [] dawn all_closed

-- Services whose Redis takes no writes: the row is inserted, the request fails, and nothing is
-- published.
abbrev forgetful : Notifications.Services World
forgetful = record services {
  redis = record redis { setex = λ k ttl v w. (threw (failure "READONLY"), w) };
}

forgetful-Quiet : Quiet forgetful broker-Log
unfolding broker-Log
forgetful-Quiet = record {
  uuid_quiet = λ x. refl;
  insert_quiet = λ r x. refl;
  find_quiet = λ id x. refl;
  get_quiet = λ k x. refl;
  setex_quiet = λ k ttl v x. refl;
}

abbrev lost : World
lost = (Notifications.create forgetful request dawn).1

lost_row : length lost.table ≡ 1
unfolding Notifications.create Notifications.answer Notifications.create_new
    Notifications.check_idempotency Notifications.store_idempotency Redis.get Redis.set lookup
    insert new_row decimal
lost_row = refl

topics-create_failed_example : broker-Log.topics lost ≡ broker-Log.topics dawn
unfolding Notifications.create Notifications.answer Notifications.create_new
    Notifications.check_idempotency Notifications.store_idempotency Redis.get Redis.set lookup
    insert new_row decimal
topics-create_failed_example =
    topics-create_failed forgetful broker-Log forgetful-Quiet request dawn (failure "READONLY") refl
