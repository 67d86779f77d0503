-- ===== src/Tests/WorkerTests.antt =====
-- The worker on messages of Ann: sent, delivered twice, and refused.
use high_throughput_notifica.Worker
use high_throughput_notifica.Worker.{Worker, Delivery, handle_notification}
use high_throughput_notifica.Kafka.Schema.{encoded, notification}
use high_throughput_notifica.Prelude.{false, true, insert, length, lookup, refl, some, ◌+◌, ◌≡◌}
use high_throughput_notifica.Prelude.Action.{returned}
use high_throughput_notifica.Processor.{process_notification, send_email}
use high_throughput_notifica.Retry.Breaker.{execute, new_breaker}
use high_throughput_notifica.Retry.Service.{execute_with_circuit_breaker, get_circuit_breaker}
use high_throughput_notifica.Tests.Messages.{fresh_worker, mail}
use high_throughput_notifica.Tests.World.{World, worker_services, worker_services-Rows}
use high_throughput_notifica.Worker.{
  deliver, handle_message, handle_text, handle_valid, record_sent, validate_message,
}
use high_throughput_notifica.Worker.Handling.{Counted, handle_notification-Counted, is_skipped}
use high_throughput_notifica.Worker.Redelivery.{redelivery_skipped}
use high_throughput_notifica.Prelude.{String, [], ℕ, ◌∷◌, ◌⊎◌}
use high_throughput_notifica.Tests.Messages.{unaddressed}
use high_throughput_notifica.Tests.World.{broker-Log}
use high_throughput_notifica.Worker.Conservation.{
  Reliable, handed_on, handle_notification_conserves,
}

abbrev after : Worker.Worker World
after = (Worker.handle_notification worker_services (encoded (notification mail)) fresh_worker).1

first_run :
    (after.processed_count ≡ 1)
    × (after.error_count ≡ 0)
    × (after.is_processing ≡ false)
    × (length after.world.topics ≡ 0)
unfolding Worker.handle_notification lookup insert Worker.handle_text Worker.handle_message
    Worker.validate_message Worker.handle_valid Worker.deliver process_notification
    execute_with_circuit_breaker execute get_circuit_breaker new_breaker send_email
    Worker.record_sent
first_run = (refl, refl, refl, refl)

abbrev sent_row : Worker.Delivery
sent_row = record { status = "SENT"; sent_at = some 1052 }

redelivery_skipped_example :
    Worker.handle_notification worker_services (encoded (notification mail)) after
    ≡ (returned tt, record after { world = record after.world { clock = after.world.clock + 1 } })
unfolding Worker.handle_notification lookup insert Worker.handle_text Worker.handle_message
    Worker.validate_message Worker.handle_valid Worker.deliver process_notification
    execute_with_circuit_breaker execute get_circuit_breaker new_breaker send_email
    Worker.record_sent
redelivery_skipped_example =
    redelivery_skipped worker_services worker_services-Rows mail fresh_worker after (some sent_row)
      refl refl refl refl

handle_notification-Counted_example :
    Counted worker_services
      (is_skipped worker_services (encoded (notification mail)) fresh_worker)
      fresh_worker
      after
handle_notification-Counted_example =
    handle_notification-Counted worker_services (encoded (notification mail)) fresh_worker

-- The first delivery is not skipped, and the second one is.
second_skipped :
    (is_skipped worker_services (encoded (notification mail)) fresh_worker ≡ false)
    × (is_skipped worker_services (encoded (notification mail)) after ≡ true)
unfolding is_skipped Worker.handle_notification lookup insert Worker.handle_text
    Worker.handle_message Worker.validate_message Worker.handle_valid Worker.deliver
    process_notification execute_with_circuit_breaker execute get_circuit_breaker new_breaker
    send_email Worker.record_sent
second_skipped = (refl, refl)

worker_services-Reliable : Reliable worker_services
worker_services-Reliable = record {
  log = broker-Log;
  accepts = λ r x. (record { topic_name = r.topic; partition = 0; base_offset = 0 } ∷ [], refl);
  find_quiet = λ id x. unfold broker-Log in refl;
  update_quiet = λ id c x. unfold broker-Log in refl;
  wait_quiet = λ ms x. unfold broker-Log in refl;
}

-- A message without a recipient is counted as an error and handed on.
abbrev failed : Worker.Worker World
failed =
    (Worker.handle_notification worker_services (encoded (notification unaddressed)) fresh_worker).1

handle_notification_conserves_example :
    ((failed.error_count ≡ 0) × (failed.world.topics ≡ []))
    ⊎ ((failed.error_count ≡ 1)
        × (error : String) × (t : ℕ) × (failed.world.topics
            ≡ handed_on worker_services worker_services-Reliable unaddressed error t ∷ []))
unfolding broker-Log worker_services-Reliable Worker.validate_message
handle_notification_conserves_example =
    handle_notification_conserves worker_services worker_services-Reliable unaddressed fresh_worker
      refl
