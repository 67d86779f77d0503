-- ===== src/Kafka/Serializer.antt =====
-- NotificationMessageSerializer of src/kafka/schemas/notification.schema.ts.
use high_throughput_notifica.Prelude.{
  ℕ, zero, String, concat, Bool, true, false, Option, none, some, truthy, or_text, includes,
  decimal, if◌then◌else◌,
}
use high_throughput_notifica.Prelude.Action.{failure, Outcome, returned, threw}
use high_throughput_notifica.Kafka.Schema.{
  NotificationMessage, PayloadValue, absent, Json, Text, null, primitive, notification, dead_letter,
  parse, stringify, or_zero, type_values, channel_values, priority_values, NotificationType,
  NotificationChannel, NotificationPriority, NotificationStatus, type_value, channel_value,
  priority_value, status_value, medium, pending,
}

-- `!msg.payload`: the empty object is truthy.
abbrev pub truthy_payload : PayloadValue → Bool
truthy_payload absent = false
truthy_payload _ = true

pub data Check : Type 0 where
  passed : Check
  refused : String → Check

-- The chain of `if (...) throw ...`, one test at a time.
abbrev require : Bool → String → Check → Check
require b message rest = if b then rest else refused message

abbrev shown : Option String → String
shown none = "undefined"
shown (some s) = s

enum_checks : NotificationMessage → Check
enum_checks m =
    require (includes type_values (shown m.type))
      (concat "Invalid notification type: " (shown m.type))
      (require (includes channel_values (shown m.channel))
        (concat "Invalid notification channel: " (shown m.channel))
        (require (includes priority_values (shown m.priority))
          (concat "Invalid notification priority: " (shown m.priority)) passed))

required_checks : NotificationMessage → Check
unfolding enum_checks
required_checks m = require (truthy m.id) "Missing required field: id" (
    require (truthy m.user_id) "Missing required field: userId" (
      require (truthy m.type) "Missing required field: type" (
        require (truthy m.channel) "Missing required field: channel" (
          require (truthy m.priority) "Missing required field: priority" (
            require (truthy m.idempotency_key) "Missing required field: idempotencyKey" (
              require (truthy_payload m.payload) "Missing required field: payload"
                (enum_checks m)))))))

abbrev checked : NotificationMessage → Check → Outcome NotificationMessage
checked m passed = returned m
checked m (refused message) = threw (failure message)

-- `validate`. A dead letter is an object without these fields.
unfoldable pub validate : Json → Outcome NotificationMessage
unfolding required_checks
validate null = threw (failure "Invalid message: must be an object")
validate primitive = threw (failure "Invalid message: must be an object")
validate (notification m) = checked m (required_checks m)
validate (dead_letter d) = threw (failure "Missing required field: id")

unfoldable pub serialize : NotificationMessage → Text
unfolding stringify
serialize m = stringify (notification m)

-- Any error of the parser or of `validate` is wrapped.
abbrev wrap : Outcome NotificationMessage → Outcome NotificationMessage
wrap (returned m) = returned m
wrap (threw (failure e)) = threw (failure (concat "Failed to deserialize message: Error: " e))
wrap (threw e) = threw (failure "Failed to deserialize message: ")

abbrev and_validate : Outcome Json → Outcome NotificationMessage
and_validate (returned j) = validate j
and_validate (threw e) = threw e

unfoldable pub deserialize : Text → Outcome NotificationMessage
unfolding parse validate
deserialize text = wrap (and_validate (parse text))

-- What `create` is given: `Partial<NotificationMessage>`, with the four required fields.
pub record MessageInput : Type 0 where
  pub id : Option String
  pub version : Option String
  pub timestamp : Option ℕ
  pub idempotency_key : Option String
  pub user_id : String
  pub tenant_id : Option String
  pub type : NotificationType
  pub channel : NotificationChannel
  pub priority : Option NotificationPriority
  pub status : Option NotificationStatus
  pub scheduled_for : Option ℕ
  pub expires_at : Option ℕ
  pub payload : PayloadValue
  pub correlation_id : Option String
  pub causation_id : Option String
  pub retry_count : Option ℕ

abbrev or_now : Option ℕ → ℕ → ℕ
or_now none now = now
or_now (some zero) now = now
or_now (some t) now = t

abbrev or_medium : Option NotificationPriority → NotificationPriority
or_medium none = medium
or_medium (some p) = p

abbrev or_pending : Option NotificationStatus → NotificationStatus
or_pending none = pending
or_pending (some s) = s

-- `create`, at the time `now` and with the two random texts that it may draw: the tail of
-- `generateId` and the digits of Math.random().
unfoldable pub create : ℕ → String → String → MessageInput → NotificationMessage
create now id_tail random_digits d = record {
  id = some (or_text d.id (concat "notif-" (concat (decimal now) (concat "-" id_tail))));
  version = some (or_text d.version "1.0.0");
  timestamp = some (or_now d.timestamp now);
  idempotency_key = some (
      or_text d.idempotency_key
        (concat d.user_id (concat "-" (concat (decimal now) (concat "-" random_digits)))));
  user_id = some d.user_id;
  tenant_id = d.tenant_id;
  type = some (type_value d.type);
  channel = some (channel_value d.channel);
  priority = some (priority_value (or_medium d.priority));
  status = some (status_value (or_pending d.status));
  scheduled_for = d.scheduled_for;
  expires_at = d.expires_at;
  payload = d.payload;
  correlation_id = d.correlation_id;
  causation_id = d.causation_id;
  retry_count = some (or_zero d.retry_count);
}
