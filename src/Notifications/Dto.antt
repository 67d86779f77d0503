-- ===== src/Notifications/Dto.antt =====
-- The DTOs of src/notification/dto and the rows of the notification table, whose Prisma client is
-- the parameter `Table`. A `scheduledFor` is a time in milliseconds.
use high_throughput_notifica.Kafka.Schema.{Payload}
use high_throughput_notifica.Prelude.{Option, String, ℕ}
use high_throughput_notifica.Prelude.Action.{Action}

pub data NotificationChannel : Type 0 where
  email sms push webhook : NotificationChannel

abbrev pub channel_value : NotificationChannel → String
channel_value email = "EMAIL"
channel_value sms = "SMS"
channel_value push = "PUSH"
channel_value webhook = "WEBHOOK"

pub data NotificationType : Type 0 where
  transactional marketing system alert : NotificationType

abbrev pub type_value : NotificationType → String
type_value transactional = "TRANSACTIONAL"
type_value marketing = "MARKETING"
type_value system = "SYSTEM"
type_value alert = "ALERT"

pub data NotificationPriority : Type 0 where
  low medium high urgent : NotificationPriority

abbrev pub priority_value : NotificationPriority → String
priority_value low = "LOW"
priority_value medium = "MEDIUM"
priority_value high = "HIGH"
priority_value urgent = "URGENT"

pub record CreateNotificationDto : Type 0 where
  pub user_id : String
  pub tenant_id : Option String
  pub channel : NotificationChannel
  pub type : NotificationType
  pub priority : Option NotificationPriority
  pub payload : Payload
  pub scheduled_for : Option ℕ
  pub idempotency_key : Option String
  pub correlation_id : Option String

-- The columns that `create` writes.
pub record NewRow : Type 0 where
  pub user_id : String
  pub tenant_id : Option String
  pub type : String
  pub channel : String
  pub status : String
  pub priority : String
  pub payload : Payload
  pub scheduled_for : Option ℕ
  pub idempotency_key : String
  pub correlation_id : String

-- A row, with the columns that the database fills in.
pub record Row : Type 0 where
  pub id : String
  pub created_at : ℕ
  pub updated_at : ℕ
  pub causation_id : Option String
  pub columns : NewRow
  pub open columns use *

pub record Table (X : Type 0) : Type 0 where
  pub find_unique : String → Action X (Option Row)
  pub create : NewRow → Action X Row

pub record NotificationResponseDto : Type 0 where
  pub id : String
  pub user_id : String
  pub tenant_id : Option String
  pub channel : String
  pub type : String
  pub priority : String
  pub status : String
  pub scheduled_for : Option ℕ
  pub created_at : ℕ
  pub updated_at : ℕ
  pub correlation_id : String
  pub idempotency_key : String
