-- ===== src/Processor.antt =====
-- src/notification/notification-processor.service.ts. The providers are mocked in the source: a
-- handler checks the payload and waits, and of its log lines only what can throw is modelled. `Timer` is the wait on
-- setTimeout. The id of a message is a text or missing.
pub mod Delivery
pub mod Isolation
pub mod Tripping
use high_throughput_notifica.Prelude.{
  ℕ, String, concat, ◌≡◌, Bool, true, false, not, ◌&&◌, ◌||◌, Option, none, some, str_eq,
  if◌then◌else◌,
}
use high_throughput_notifica.Prelude.Action.{
  Error, failure, Outcome, returned, threw, Action, pure, throw, try_catch, ◌>>=◌, ◌>>◌,
}
use high_throughput_notifica.Kafka.Schema.{
  NotificationMessage, Payload, is_string, truthy_field, PayloadValue, absent, scalar, object,
}
use high_throughput_notifica.Retry.Breaker.{Clock}
use high_throughput_notifica.Retry.Service.{CircuitBreakers, execute_with_circuit_breaker}

-- `await new Promise((resolve) => setTimeout(resolve, ms))`
abbrev pub Timer : Type 0 → Type 0
Timer X = ℕ → X → X

abbrev no_fields : Payload
no_fields = record {
  subject = none;
  body = none;
  «from» = none;
  «to» = none;
  token = none;
  topic = none;
  title = none;
  url = none;
  method = none;
}

-- The fields of `payload as any`; reading one off a missing payload is a TypeError.
unfoldable pub payload_fields : PayloadValue → Outcome Payload
payload_fields absent = threw (failure "Cannot read properties of undefined")
payload_fields scalar = returned no_fields
payload_fields (object p) = returned p

abbrev shown : Option String → String
shown none = "undefined"
shown (some s) = s

module _ {X : Type 0} (wait : Timer X) where
  abbrev with_payload : PayloadValue → (Payload → Action X (Unit {0})) → Action X (Unit {0})
  with_payload v f = (λ x. (payload_fields v, x)) >>= f

  abbrev sleep : ℕ → Action X (Unit {0})
  sleep ms x = (returned tt, wait ms x)

  -- `id.substring(0, 8)`, for the log line after the wait.
  abbrev short_id : Option String → Action X (Unit {0})
  short_id none = throw (failure "Cannot read properties of undefined (reading 'substring')")
  short_id (some s) = pure tt

  unfoldable pub send_email : NotificationMessage → Action X (Unit {0})
  unfolding payload_fields
  send_email m =
      try_catch
        (with_payload m.payload (λ p.
          if not (truthy_field p.«to») || not (truthy_field p.subject) || not (truthy_field p.body)
          then throw (failure "Invalid email payload: missing to, subject, or body")
          else sleep 50))
        (λ e. throw e)

  unfoldable pub send_sms : NotificationMessage → Action X (Unit {0})
  unfolding payload_fields
  send_sms m =
      try_catch
        (with_payload m.payload (λ p.
          if not (truthy_field p.«to») || not (truthy_field p.body)
          then throw (failure "Invalid SMS payload: missing to or body")
          else if not (is_string p.body)
          then throw (failure "smsPayload.body.substring is not a function")
          else sleep 75 >> short_id m.id))
        (λ e. throw e)

  unfoldable pub send_push : NotificationMessage → Action X (Unit {0})
  unfolding payload_fields
  send_push m =
      try_catch
        (with_payload m.payload (λ p.
          if not (truthy_field p.token) && not (truthy_field p.topic)
          then throw (failure "Invalid push payload: missing token or topic")
          else if not (truthy_field p.title) || not (truthy_field p.body)
          then throw (failure "Invalid push payload: missing title or body")
          else if not (is_string p.body)
          then throw (failure "pushPayload.body.substring is not a function")
          else sleep 60 >> short_id m.id))
        (λ e. throw e)

  -- The default method 'POST' that the source fills in is only logged.
  unfoldable pub send_webhook : NotificationMessage → Action X (Unit {0})
  unfolding payload_fields
  send_webhook m =
      try_catch
        (with_payload m.payload (λ p.
          if not (truthy_field p.url)
          then throw (failure "Invalid webhook payload: missing url")
          else sleep 100))
        (λ e. throw e)

  module _ (now : Clock X) where
    -- The `switch` on the channel.
    unfoldable pub process_notification :
        NotificationMessage → Action (CircuitBreakers × X) (Unit {0})
    process_notification m =
        let channel = shown m.channel in
        if str_eq channel "EMAIL"
        then execute_with_circuit_breaker now "sendgrid" (send_email m)
        else if str_eq channel "SMS"
        then execute_with_circuit_breaker now "twilio" (send_sms m)
        else if str_eq channel "PUSH_IOS" || str_eq channel "PUSH_ANDROID"
        then execute_with_circuit_breaker now "fcm" (send_push m)
        else if str_eq channel "WEBHOOK"
        then execute_with_circuit_breaker now "webhook" (send_webhook m)
        else throw (failure (concat "Unsupported notification channel: " channel))
