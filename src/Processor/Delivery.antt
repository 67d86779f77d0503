-- ===== src/Processor/Delivery.antt =====
-- Which messages are delivered, and what a delivery does to the circuit breakers.
use high_throughput_notifica.Kafka.Schema.{
  NotificationMessage, Payload, PayloadValue, object, is_string, truthy_field,
}
use high_throughput_notifica.Prelude.{
  Bool, Option, String, arith, concat, false, if◌then◌else◌, none, some, str_eq, true, ◌&&◌, ◌||◌,
  ◌↔◌, ◌≡◌, ◌≢◌,
}
use high_throughput_notifica.Prelude.Action.{Action, failure, returned, threw}
use high_throughput_notifica.Processor.{
  Timer, process_notification, send_email, send_push, send_sms, send_webhook,
}
use high_throughput_notifica.Retry.Breaker.{Clock}
use high_throughput_notifica.Retry.Service.{
  CircuitBreakers, execute_with_circuit_breaker, get_circuit_breaker,
}
use high_throughput_notifica.Prelude.{Bool-cases, inl, inr, sym, ◌∙◌}
use high_throughput_notifica.Retry.Breaker.{opened}
use high_throughput_notifica.Retry.Breaker.Recovery.{execute_passes}

-- The providers, one for each circuit breaker, and the channels that they serve.
pub data Provider : Type 0 where
  sendgrid twilio fcm webhook : Provider

abbrev pub service_name : Provider → String
service_name sendgrid = "sendgrid"
service_name twilio = "twilio"
service_name fcm = "fcm"
service_name webhook = "webhook"

unfoldable pub provider_of : String → Option Provider
provider_of channel =
    if str_eq channel "EMAIL"
    then some sendgrid
    else if str_eq channel "SMS"
    then some twilio
    else if str_eq channel "PUSH_IOS" || str_eq channel "PUSH_ANDROID"
    then some fcm
    else if str_eq channel "WEBHOOK"
    then some webhook
    else none

abbrev has_fields : Provider → Payload → Bool
has_fields sendgrid p = truthy_field p.«to» && truthy_field p.subject && truthy_field p.body
has_fields twilio p = truthy_field p.«to» && truthy_field p.body && is_string p.body
has_fields fcm p =
    (truthy_field p.token || truthy_field p.topic)
    && truthy_field p.title
    && truthy_field p.body
    && is_string p.body
has_fields webhook p = truthy_field p.url

-- What a provider asks of a payload; SMS and push take only a body that is a string.
unfoldable pub deliverable : Provider → PayloadValue → Bool
deliverable p (object fields) = has_fields p fields
deliverable p v = false

-- SMS and push shorten the id of a message for a log line.
unfoldable pub has_id : Provider → NotificationMessage → Bool
has_id twilio m = elim m.id [ none ↦ false | some i ↦ true ]
has_id fcm m = elim m.id [ none ↦ false | some i ↦ true ]
has_id p m = true

module _ {X : Type 0} (wait : Timer X) where
  unfoldable pub handler_of : Provider → NotificationMessage → Action X (Unit {0})
  handler_of sendgrid = send_email wait
  handler_of twilio = send_sms wait
  handler_of fcm = send_push wait
  handler_of webhook = send_webhook wait

  handler_of-deliverable :
      (p : Provider) (m : NotificationMessage) (x : X)
      → deliverable p m.payload ≡ true
      → has_id p m ≡ true
      → (handler_of p m x).0 ≡ returned tt
  unfolding deliverable has_id handler_of send_email send_sms send_push send_webhook
  handler_of-deliverable sendgrid m x h i = ground arith
  handler_of-deliverable twilio m x h i = ground arith
  handler_of-deliverable fcm m x h i = ground arith
  handler_of-deliverable webhook m x h i = ground arith

  pub handler_of_refuses :
      (p : Provider) (m : NotificationMessage) (x : X)
      → deliverable p m.payload ≡ false
      → ((handler_of p m x).0 ≢ returned tt) × ((handler_of p m x).1 ≡ x)
  unfolding deliverable handler_of send_email send_sms send_push send_webhook
  handler_of_refuses sendgrid m x h = ground arith
  handler_of_refuses twilio m x h = ground arith
  handler_of_refuses fcm m x h = ground arith
  handler_of_refuses webhook m x h = ground arith

  handler_of_unnamed :
      (p : Provider) (m : NotificationMessage) (x : X)
      → has_id p m ≡ false
      → (handler_of p m x).0 ≢ returned tt
  unfolding has_id handler_of send_email send_sms send_push send_webhook
  handler_of_unnamed sendgrid m x h = ground arith
  handler_of_unnamed twilio m x h = ground arith
  handler_of_unnamed fcm m x h = ground arith
  handler_of_unnamed webhook m x h = ground arith

  module _ (now : Clock X) where
    -- A message on any channel but EMAIL, SMS, PUSH_IOS, PUSH_ANDROID and WEBHOOK is refused with
    -- the channel's name, and neither a breaker nor the rest of the world has changed.
    pub process_notification_unsupported :
        (m : NotificationMessage) (channel : String) (s : CircuitBreakers × X)
        → m.channel ≡ some channel
        → provider_of channel ≡ none
        → process_notification wait now m s
          ≡ (threw (failure (concat "Unsupported notification channel: " channel)), s)
    unfolding process_notification provider_of
    process_notification_unsupported m channel s h e = ground arith

    pub process_notification-provider_of :
        (m : NotificationMessage) (channel : String) (p : Provider) (s : CircuitBreakers × X)
        → m.channel ≡ some channel
        → provider_of channel ≡ some p
        → process_notification wait now m s
          ≡ execute_with_circuit_breaker now (service_name p) (handler_of p m) s
    unfolding process_notification provider_of handler_of
    process_notification-provider_of m channel p s h e = ground arith

    -- While the circuit of its provider is not open, a message on a supported channel is delivered
    -- exactly if its payload has the fields that the provider asks for, the body of an SMS or push
    -- message being a string, and, for SMS and push, the message has an id.
    pub process_notification_delivers :
        (m : NotificationMessage) (channel : String) (p : Provider) (bs : CircuitBreakers) (x : X)
        → m.channel ≡ some channel
        → provider_of channel ≡ some p
        → (get_circuit_breaker (service_name p) bs).state ≢ opened
        → ((process_notification wait now m (bs, x)).0 ≡ returned tt)
          ↔ ((deliverable p m.payload ≡ true) × (has_id p m ≡ true))
    unfolding execute_with_circuit_breaker
    process_notification_delivers m channel p bs x h e c =
        let passed =
          execute_passes now (handler_of p m) (get_circuit_breaker (service_name p) bs) x c in
        let same = process_notification-provider_of m channel p (bs, x) h e in
        elim (Bool-cases (deliverable p m.payload)) [
          | inl good ↦ elim (Bool-cases (has_id p m)) [
            | inl named ↦
                let sent = handler_of-deliverable p m x good named in
                (λ r. (good, named), λ d. rw same (passed ∙ sent))
            | inr unnamed ↦
                let kept = handler_of_unnamed p m x unnamed in
                (λ r. absurd (kept (sym passed ∙ (rw same at r))), λ d. absurd (ground arith))
          ]
          | inr bad ↦
              let kept = handler_of_refuses p m x bad in
              (λ r. absurd (kept.0 (sym passed ∙ (rw same at r))), λ d. absurd (ground arith))
        ]
