-- ===== src/Tests/ProcessorTests.antt =====
-- The processor on good and bad messages.
use high_throughput_notifica.Kafka.Schema.{NotificationMessage, object, other_value}
use high_throughput_notifica.Prelude.{
  false, none, some, [], arith, lookup, refl, true, ◌↔◌, ◌∷◌, ◌≡◌,
}
use high_throughput_notifica.Prelude.Action.{returned}
use high_throughput_notifica.Processor.{process_notification}
use high_throughput_notifica.Processor.Delivery.{
  deliverable, has_id, process_notification_delivers, provider_of, sendgrid, twilio,
}
use high_throughput_notifica.Processor.Isolation.{process_all-Elsewhere, unserved}
use high_throughput_notifica.Processor.Tripping.{Undeliverable, process_all, process_all_trips}
use high_throughput_notifica.Retry.Breaker.{new_breaker, opened}
use high_throughput_notifica.Retry.Service.{get_circuit_breaker}
use high_throughput_notifica.Tests.Messages.{letter, mail, unaddressed}
use high_throughput_notifica.Tests.World.{dawn, pass_time, tick}

unaddressed-Undeliverable : Undeliverable pass_time tick sendgrid unaddressed
unfolding provider_of deliverable
unaddressed-Undeliverable = record {
  channel = "EMAIL";
  named = refl;
  served = refl;
  lacking = refl;
}

process_all_trips_example :
    (get_circuit_breaker "sendgrid"
      (process_all pass_time tick
        (unaddressed ∷ unaddressed ∷ unaddressed ∷ unaddressed ∷ unaddressed ∷ [])
        ([], dawn)).0).state
    ≡ opened
unfolding get_circuit_breaker new_breaker lookup provider_of deliverable
process_all_trips_example =
    process_all_trips pass_time tick sendgrid
      (unaddressed ∷ unaddressed ∷ unaddressed ∷ unaddressed ∷ unaddressed ∷ []) [] dawn
      (
        unaddressed-Undeliverable,
        (
          unaddressed-Undeliverable,
          (unaddressed-Undeliverable, (unaddressed-Undeliverable, (unaddressed-Undeliverable, tt))),
        ),
      )
      refl (omega arith)

-- An SMS with a recipient and a body.
abbrev short : NotificationMessage
short = record mail { channel = some "SMS" }

process_notification_delivers_example :
    ((process_notification pass_time tick short ([], dawn)).0 ≡ returned tt)
    ↔ ((deliverable twilio short.payload ≡ true) × (has_id twilio short ≡ true))
unfolding get_circuit_breaker new_breaker lookup provider_of
process_notification_delivers_example =
    process_notification_delivers pass_time tick short "SMS" twilio [] dawn refl refl (ground arith)

-- It is delivered; without an id, or with a number as its body, it is not.
short_runs :
    (deliverable twilio short.payload ≡ true)
    × (has_id twilio short ≡ true)
    × (has_id twilio (record short { id = none }) ≡ false)
    × (deliverable twilio (object (record letter { body = some (other_value true) })) ≡ false)
unfolding deliverable has_id
short_runs = (refl, refl, refl, refl)

process_all-Elsewhere_example :
    get_circuit_breaker "twilio"
      (process_all pass_time tick (unaddressed ∷ unaddressed ∷ []) ([], dawn)).0
    ≡ get_circuit_breaker "twilio" []
unfolding provider_of
process_all-Elsewhere_example =
    process_all-Elsewhere pass_time tick twilio (unaddressed ∷ unaddressed ∷ []) [] dawn (
      unserved "EMAIL" refl (λ same. ground (arith, same)),
      (unserved "EMAIL" refl (λ same. ground (arith, same)), tt),
    )
