-- ===== src/Processor/Isolation.antt =====
-- Messages for one provider do not touch the circuit breaker of another.
use high_throughput_notifica.Kafka.Schema.{NotificationMessage}
use high_throughput_notifica.Prelude.{
  All, List, Option-cases, String, [], Option, ap, if◌then◌else◌, str_eq, sym, inl, inr, none, refl,
  some, ◌∙◌, ◌∷◌, ◌≡◌, ◌≢◌,
}
use high_throughput_notifica.Processor.{Timer, process_notification}
use high_throughput_notifica.Processor.Delivery.{
  Provider, fcm, handler_of, sendgrid, twilio, webhook, process_notification-provider_of,
  process_notification_unsupported, provider_of, service_name,
}
use high_throughput_notifica.Processor.Tripping.{process_all}
use high_throughput_notifica.Retry.Breaker.{Clock}
use high_throughput_notifica.Retry.Service.{CircuitBreakers, get_circuit_breaker}
use high_throughput_notifica.Retry.Service.Breakers.{execute_with_circuit_breaker_other}

-- The provider of a name.
named : String → Option Provider
named name =
    if str_eq name "sendgrid"
    then some sendgrid
    else if str_eq name "twilio"
    then some twilio
    else if str_eq name "fcm"
    then some fcm
    else some webhook

named-service_name : (p : Provider) → named (service_name p) ≡ some p
unfolding named
named-service_name sendgrid = refl
named-service_name twilio = refl
named-service_name fcm = refl
named-service_name webhook = refl

service_name-injective : (q p : Provider) → service_name q ≡ service_name p → some q ≡ some p
service_name-injective q p h = sym (named-service_name q) ∙ ap named h ∙ named-service_name p

-- A message that is not for the provider `p`: it has no channel, or one that `p` does not serve.
pub data Elsewhere (p : Provider) (m : NotificationMessage) : Type 0 where
  no_channel : m.channel ≡ none → Elsewhere p m
  unserved :
      (channel : String) → m.channel ≡ some channel → provider_of channel ≢ some p → Elsewhere p m

module _ {X : Type 0} (wait : Timer X) (now : Clock X) where
  process_notification_no_channel :
      (m : NotificationMessage) (s : CircuitBreakers × X)
      → m.channel ≡ none
      → (process_notification wait now m s).1 ≡ s
  unfolding process_notification
  process_notification_no_channel m s h = rw h refl

  process_notification-Elsewhere :
      (p : Provider) (m : NotificationMessage) (bs : CircuitBreakers) (x : X)
      → Elsewhere p m
      → get_circuit_breaker (service_name p) (process_notification wait now m (bs, x)).1.0
        ≡ get_circuit_breaker (service_name p) bs
  process_notification-Elsewhere p m bs x (no_channel h) =
      rw (process_notification_no_channel m (bs, x) h) refl
  process_notification-Elsewhere p m bs x (unserved channel h other) =
      elim (Option-cases (provider_of channel)) [
        | inl e ↦ rw (process_notification_unsupported wait now m channel (bs, x) h e) refl
        | inr (q, e) ↦ rw (process_notification-provider_of wait now m channel q (bs, x) h e) (
            execute_with_circuit_breaker_other now (handler_of wait q m) (service_name q)
              (service_name p) bs x (λ same. other (e ∙ service_name-injective q p same)))
      ]

  -- Whatever messages for other providers, or for none, are processed one after the other, and
  -- however they fail, the circuit breaker of a provider is as it was.
  pub process_all-Elsewhere :
      (p : Provider) (ms : List NotificationMessage) (bs : CircuitBreakers) (x : X)
      → All (Elsewhere p) ms
      → get_circuit_breaker (service_name p) (process_all wait now ms (bs, x)).0
        ≡ get_circuit_breaker (service_name p) bs
  unfolding process_all
  process_all-Elsewhere p [] bs x u = refl
  process_all-Elsewhere p (m ∷ ms) bs x u =
      let s = (process_notification wait now m (bs, x)).1 in
      process_all-Elsewhere p ms s.0 s.1 u.1 ∙ process_notification-Elsewhere p m bs x u.0
