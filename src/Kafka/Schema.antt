-- ===== src/Kafka/Schema.antt =====
-- src/kafka/schemas/notification.schema.ts: what travels through Kafka. A text on the wire is
-- represented by what JSON.parse makes of it; the fields of a parsed message are unchecked, so
-- each is a string or number that may be missing, and each field of its payload any value.
-- Attachments, template data and the other fields of a payload that no code reads are not
-- modelled.
use high_throughput_notifica.Prelude.{
  Bool, true, false, truthy_text, ℕ, String, Option, none, some, List, [], ◌∷◌, map,
}
use high_throughput_notifica.Prelude.Action.{failure, Outcome, returned, threw}

pub data NotificationType : Type 0 where
  email sms push in_app webhook : NotificationType

abbrev pub type_value : NotificationType → String
type_value NotificationType.email = "EMAIL"
type_value NotificationType.sms = "SMS"
type_value NotificationType.push = "PUSH"
type_value NotificationType.in_app = "IN_APP"
type_value NotificationType.webhook = "WEBHOOK"

pub data NotificationChannel : Type 0 where
  email sms push_ios push_android in_app webhook : NotificationChannel

abbrev pub channel_value : NotificationChannel → String
channel_value NotificationChannel.email = "EMAIL"
channel_value NotificationChannel.sms = "SMS"
channel_value push_ios = "PUSH_IOS"
channel_value push_android = "PUSH_ANDROID"
channel_value NotificationChannel.in_app = "IN_APP"
channel_value NotificationChannel.webhook = "WEBHOOK"

pub data NotificationPriority : Type 0 where
  low medium high urgent : NotificationPriority

abbrev pub priority_value : NotificationPriority → String
priority_value low = "LOW"
priority_value medium = "MEDIUM"
priority_value high = "HIGH"
priority_value urgent = "URGENT"

pub data NotificationStatus : Type 0 where
  pending processing sent failed cancelled : NotificationStatus

abbrev pub status_value : NotificationStatus → String
status_value pending = "PENDING"
status_value processing = "PROCESSING"
status_value sent = "SENT"
status_value failed = "FAILED"
status_value cancelled = "CANCELLED"

-- `Object.values` of the enums that `validate` checks.
abbrev pub type_values : List String
type_values = map type_value (
    NotificationType.email ∷ NotificationType.sms ∷ push ∷ NotificationType.in_app
    ∷ NotificationType.webhook ∷ [])

abbrev pub channel_values : List String
channel_values = map channel_value (
    NotificationChannel.email ∷ NotificationChannel.sms ∷ push_ios ∷ push_android
    ∷ NotificationChannel.in_app ∷ NotificationChannel.webhook ∷ [])

abbrev pub priority_values : List String
priority_values = map priority_value (low ∷ medium ∷ high ∷ urgent ∷ [])

-- The value of a payload's field: a string, or any other value with whether it is truthy.
pub data Field : Type 0 where
  string_value : String → Field
  other_value : Bool → Field

abbrev pub truthy_field : Option Field → Bool
truthy_field none = false
truthy_field (some (string_value s)) = truthy_text s
truthy_field (some (other_value b)) = b

abbrev pub is_string : Option Field → Bool
is_string (some (string_value s)) = true
is_string _ = false

-- The fields of a payload that the channel handlers read.
pub record Payload : Type 0 where
  pub subject : Option Field
  pub body : Option Field
  pub «from» : Option Field
  pub «to» : Option Field
  pub token : Option Field
  pub topic : Option Field
  pub title : Option Field
  pub url : Option Field
  pub method : Option Field

-- A payload as it comes off the wire: missing (or null), a scalar, or an object.
pub data PayloadValue : Type 0 where
  absent : PayloadValue
  scalar : PayloadValue
  object : Payload → PayloadValue

pub record NotificationMessage : Type 0 where
  pub id : Option String
  pub version : Option String
  pub timestamp : Option ℕ
  pub idempotency_key : Option String
  pub user_id : Option String
  pub tenant_id : Option String
  pub type : Option String
  pub channel : Option String
  pub priority : Option String
  pub status : Option String
  pub scheduled_for : Option ℕ
  pub expires_at : Option ℕ
  pub payload : PayloadValue
  pub correlation_id : Option String
  pub causation_id : Option String
  pub retry_count : Option ℕ

-- The message that `sendToDLQ` builds (src/notification/retry.service.ts).
pub record DeadLetter : Type 0 where
  pub notification : NotificationMessage
  pub error : String
  pub reason : String
  pub failed_at : ℕ
  pub retry_count : ℕ

-- The values that the program serialises or parses.
pub data Json : Type 0 where
  null : Json
  primitive : Json
  notification : NotificationMessage → Json
  dead_letter : DeadLetter → Json

-- The value of a Kafka message: missing or '', a text that JSON.parse refuses, or a text that it
-- reads.
pub data Text : Type 0 where
  empty : Text
  malformed : Text
  encoded : Json → Text

unfoldable pub stringify : Json → Text
stringify j = encoded j

unfoldable pub parse : Text → Outcome Json
parse empty = threw (failure "Unexpected end of JSON input")
parse malformed = threw (failure "Unexpected token in JSON")
parse (encoded j) = returned j

-- A message with no field, which is how a primitive reads.
abbrev pub blank : NotificationMessage
blank = record {
  id = none;
  version = none;
  timestamp = none;
  idempotency_key = none;
  user_id = none;
  tenant_id = none;
  type = none;
  channel = none;
  priority = none;
  status = none;
  scheduled_for = none;
  expires_at = none;
  payload = absent;
  correlation_id = none;
  causation_id = none;
  retry_count = none;
}

abbrev pub or_zero : Option ℕ → ℕ
or_zero none = 0
or_zero (some n) = n
