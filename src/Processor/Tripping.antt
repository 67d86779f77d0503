-- ===== src/Processor/Tripping.antt =====
-- Messages that a client filled in badly count as failures of the provider.
use high_throughput_notifica.Kafka.Schema.{NotificationMessage}
use high_throughput_notifica.Prelude.{
  All, List, String, [], arith, false, if◌then◌else◌, inl, inr, leb, length, some, ◌+◌, ◌<◌, ◌∙◌,
  ◌∷◌, ◌≡◌, ◌≢◌,
}
use high_throughput_notifica.Prelude.Action.{returned}
use high_throughput_notifica.Processor.{Timer, process_notification}
use high_throughput_notifica.Processor.Delivery.{
  Provider, deliverable, handler_of, handler_of_refuses, process_notification-provider_of,
  provider_of, service_name,
}
use high_throughput_notifica.Retry.Breaker.{
  CircuitBreaker, Clock, closed, execute, failure_threshold, opened,
}
use high_throughput_notifica.Retry.Breaker.Recovery.{
  execute_failing_closed, execute_failing_opened, on_failure_closed,
}
use high_throughput_notifica.Retry.Service.{CircuitBreakers, get_circuit_breaker}
use high_throughput_notifica.Retry.Service.Breakers.{execute_with_circuit_breaker_self}

module _ {X : Type 0} (wait : Timer X) (now : Clock X) where
  -- The processor fed one message after another; an error ends only its own message.
  unfoldable pub process_all : List NotificationMessage → CircuitBreakers × X → CircuitBreakers × X
  process_all [] s = s
  process_all (m ∷ ms) s = process_all ms (process_notification wait now m s).1

  -- A message for the provider `p` whose payload lacks a field that `p` asks for, or has, for SMS
  -- and push, a body that is not a string.
  pub record Undeliverable (p : Provider) (m : NotificationMessage) : Type 0 where
    pub channel : String
    pub named : m.channel ≡ some channel
    pub served : provider_of channel ≡ some p
    pub lacking : deliverable p m.payload ≡ false

  breaker : Provider → CircuitBreakers × X → CircuitBreaker
  breaker p s = get_circuit_breaker (service_name p) s.0

  breaker-process_notification :
      (p : Provider) (m : NotificationMessage) (bs : CircuitBreakers) (x : X)
      → Undeliverable p m
      → breaker p (process_notification wait now m (bs, x)).1
        ≡ (execute now (handler_of wait p m) (breaker p (bs, x), x)).1.0
  unfolding breaker
  breaker-process_notification p m bs x u =
      rw (process_notification-provider_of wait now m u.channel p (bs, x) u.named u.served)
        (execute_with_circuit_breaker_self now (handler_of wait p m) (service_name p) bs x)

  fails_always :
      (p : Provider) (m : NotificationMessage)
      → Undeliverable p m
      → (y : X) (a : Unit {0}) → (handler_of wait p m y).0 ≢ returned a
  fails_always p m u y a = (handler_of_refuses wait p m y u.lacking).0

  opened-process_all :
      (p : Provider) (ms : List NotificationMessage) (bs : CircuitBreakers) (x : X)
      → All (Undeliverable p) ms
      → (breaker p (bs, x)).state ≡ opened
      → (breaker p (process_all ms (bs, x))).state ≡ opened
  unfolding process_all
  opened-process_all p [] bs x u h = h
  opened-process_all p (m ∷ ms) bs x u h =
      let s = (process_notification wait now m (bs, x)).1 in
      opened-process_all p ms s.0 s.1 u.1 (
        rw (breaker-process_notification p m bs x u.0) (
          execute_failing_opened now (handler_of wait p m) (breaker p (bs, x)) x h
            (fails_always p m u.0)))

  -- However well the provider works, messages with missing payload fields, or for SMS and push a
  -- body that is not a string, open its closed circuit exactly when they bring its count of
  -- failures in a row to five.
  pub process_all_trips :
      (p : Provider) (ms : List NotificationMessage) (bs : CircuitBreakers) (x : X)
      → All (Undeliverable p) ms
      → (get_circuit_breaker (service_name p) bs).state ≡ closed
      → (get_circuit_breaker (service_name p) bs).failure_count < failure_threshold
      → (get_circuit_breaker (service_name p) (process_all ms (bs, x)).0).state ≡ (
          if leb failure_threshold
            ((get_circuit_breaker (service_name p) bs).failure_count + length ms)
          then opened
          else closed)
  unfolding process_all breaker
  process_all_trips p [] bs x u h b = ground arith
  process_all_trips p (m ∷ ms) bs x u h b =
      let cb = get_circuit_breaker (service_name p) bs in
      let fn = handler_of wait p m in
      let s = (process_notification wait now m (bs, x)).1 in
      let after =
        breaker-process_notification p m bs x u.0
        ∙ execute_failing_closed now fn cb x h (fails_always p m u.0 x) in
      elim (on_failure_closed (now (fn x).1).0 cb h) [
        | inl (full, open_now) ↦ ground (arith, opened-process_all p ms s.0 s.1 u.1)
        | inr (below, still, counted) ↦ ground (arith, process_all_trips p ms s.0 s.1 u.1)
      ]
