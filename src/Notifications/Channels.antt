-- ===== src/Notifications/Channels.antt =====
-- What the processor does with the message of a notification that the API created.
use high_throughput_notifica.Kafka.Schema.{NotificationMessage, object}
use high_throughput_notifica.Notifications.{
  CreateNotificationDto, NotificationChannel, Row, channel_value, email, push, sms,
  to_kafka_message, webhook,
}
use high_throughput_notifica.Prelude.{
  Option, ap, arith, concat, none, refl, some, sym, true, ℕ, ◌↔◌, ◌∙◌, ◌≡◌, ◌≢◌,
}
use high_throughput_notifica.Prelude.Action.{failure, returned, threw}
use high_throughput_notifica.Processor.{Timer, process_notification}
use high_throughput_notifica.Processor.Delivery.{
  Provider, deliverable, has_id, process_notification_delivers, process_notification_unsupported,
  provider_of, service_name,
}
use high_throughput_notifica.Processor.Delivery.{fcm, sendgrid, twilio}
use high_throughput_notifica.Retry.Breaker.{Clock, opened}
use high_throughput_notifica.Retry.Service.{CircuitBreakers, get_circuit_breaker}

-- The provider of a channel of the API; PUSH has none.
abbrev pub provider_for : NotificationChannel → Option Provider
provider_for email = some sendgrid
provider_for sms = some twilio
provider_for push = none
provider_for webhook = some Provider.webhook

provider_of-channel_value :
    (c : NotificationChannel) → provider_of (channel_value c) ≡ provider_for c
unfolding provider_of
provider_of-channel_value email = refl
provider_of-channel_value sms = refl
provider_of-channel_value push = refl
provider_of-channel_value webhook = refl

module _ {X : Type 0} (wait : Timer X) (now : Clock X) where
  -- How the processor takes the message `m` of a request.
  abbrev pub Taken :
      NotificationMessage → CreateNotificationDto → CircuitBreakers × X → Option Provider → Type 0
  Taken m dto s none =
      (dto.channel ≡ push)
      × (process_notification wait now m s
          ≡ (threw (failure "Unsupported notification channel: PUSH"), s))
  Taken m dto s (some p) =
      ((process_notification wait now m s).0 ≡ returned tt)
      ↔ (deliverable p (object dto.payload) ≡ true)

  module _ (t : ℕ) (row : Row) (dto : CreateNotificationDto) where
    abbrev sent : NotificationMessage
    sent = to_kafka_message t row dto

    channel-sent : sent.channel ≡ some (channel_value dto.channel)
    unfolding to_kafka_message
    channel-sent = refl

    payload-sent : sent.payload ≡ object dto.payload
    unfolding to_kafka_message
    payload-sent = refl

    has_id-sent : (p : Provider) → has_id p sent ≡ true
    unfolding to_kafka_message has_id
    has_id-sent sendgrid = refl
    has_id-sent twilio = refl
    has_id-sent fcm = refl
    has_id-sent Provider.webhook = refl

    no_provider : (c : NotificationChannel) → provider_for c ≡ none → c ≡ push
    no_provider c h = ground arith

    taken :
        (bs : CircuitBreakers) (x : X) (o : Option Provider)
        → ((p : Provider) → (get_circuit_breaker (service_name p) bs).state ≢ opened)
        → provider_for dto.channel ≡ o
        → Taken sent dto (bs, x) o
    taken bs x none up e =
        let same = no_provider dto.channel e in
        let lost = provider_of-channel_value dto.channel ∙ e in
        (
          same,
          process_notification_unsupported wait now sent (channel_value dto.channel) (bs, x)
                channel-sent lost
              ∙ ap
                  (λ c. (
                    threw (failure (concat "Unsupported notification channel: " (channel_value c))),
                    (bs, x),
                  ))
                  same,
        )
    taken bs x (some p) up e =
        let iff =
          process_notification_delivers wait now sent (channel_value dto.channel) p bs x
            channel-sent (provider_of-channel_value dto.channel ∙ e) (up p) in
        (
          λ r. ap (λ v. deliverable p v) (sym payload-sent) ∙ (iff.0 r).0,
          λ d. iff.1 (ap (λ v. deliverable p v) payload-sent ∙ d, has_id-sent p),
        )

    -- While no circuit is open, the processor delivers the message of a new notification on EMAIL,
    -- SMS or WEBHOOK exactly if its payload has the fields that SendGrid, Twilio or the webhook asks
    -- for, and refuses each one on PUSH as unsupported, with nothing changed.
    pub process_notification-Taken :
        (bs : CircuitBreakers) (x : X)
        → ((p : Provider) → (get_circuit_breaker (service_name p) bs).state ≢ opened)
        → Taken sent dto (bs, x) (provider_for dto.channel)
    process_notification-Taken bs x up = taken bs x (provider_for dto.channel) up refl
