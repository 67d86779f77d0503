-- ===== src/Worker.antt =====
-- src/notification/notification-worker.service.ts. The Prisma client is the parameter `Database`.
pub mod Handling
pub mod Redelivery
pub mod Validation
pub mod Conservation
pub mod Draining
use high_throughput_notifica.Prelude.{
  str_eq, none, some, ℕ, String, Bool, true, false, Option, truthy,
}
use high_throughput_notifica.Prelude.Action.{
  http, pure, failure, threw, returned, modify, Outcome, Error, Action,
}
use high_throughput_notifica.Kafka.Schema.{
  dead_letter, notification, blank, Text, PayloadValue, parse, Json, NotificationMessage, object,
}
use high_throughput_notifica.Retry.Service.{CircuitBreakers}
use high_throughput_notifica.Kafka.Producer.{Broker}
use high_throughput_notifica.Kafka.Schema.{empty, null, primitive}
use high_throughput_notifica.Prelude.{if◌then◌else◌, not, ◌+◌, ◌||◌}
use high_throughput_notifica.Prelude.Action.{finally, non_error, try_catch}
use high_throughput_notifica.Prelude.Int.{sub_nat, ℤ, ◌+ℤ◌}
use high_throughput_notifica.Processor.{Timer, process_notification}
use high_throughput_notifica.Retry.Breaker.{Clock}
use high_throughput_notifica.Retry.Service.{send_to_retry_queue}
use high_throughput_notifica.Prelude.Action.{◌>>=◌, ◌>>◌}
use high_throughput_notifica.Prelude.Action.{limited}
use high_throughput_notifica.RateLimit.{retry_after}

-- The columns that the worker selects.
pub record Delivery : Type 0 where
  pub status : String
  pub sent_at : Option ℕ

-- The `data` of an update; `none` leaves a column alone.
pub record Change : Type 0 where
  pub status : String
  pub sent_at : Option ℕ
  pub failed_at : Option ℕ
  pub error_message : Option String
  pub retry_increment : ℕ
  pub updated_at : ℕ

-- `prisma.notification`: `findUnique` and `update` by id, over the state `X` of the world.
pub record Database (X : Type 0) : Type 0 where
  pub find_unique : String → Action X (Option Delivery)
  pub update : String → Change → Action X (Unit {0})

pub record Worker (X : Type 0) : Type 0 where
  pub is_processing : Bool
  pub processed_count : ℕ
  pub error_count : ℕ
  pub last_processed_at : Option ℕ
  pub total_processing_time : ℤ
  pub breakers : CircuitBreakers
  pub world : X

abbrev is_object : PayloadValue → Bool
is_object (object p) = true
is_object _ = false

unfoldable pub validate_message : NotificationMessage → Bool
validate_message m =
    if not (truthy m.id) || not (truthy m.user_id) || not (truthy m.type) || not (truthy m.channel)
    then false
    else if not (is_object m.payload)
    then false
    else true

-- A parsed value read as a message: `null.id` is a TypeError, and other values lack the fields.
abbrev pub as_message : Json → Outcome NotificationMessage
as_message null = threw (failure "Cannot read properties of null (reading 'id')")
as_message primitive = returned blank
as_message (notification m) = returned m
as_message (dead_letter d) = returned blank

-- `error instanceof Error ? error.message : 'Unknown error'`
abbrev pub error_text : Error → String
error_text (failure message) = message
error_text (http status message) = message
error_text (limited message retry_after) = message
error_text non_error = "Unknown error"

-- The id of a message that was validated.
abbrev pub id_of : NotificationMessage → String
id_of m = elim m.id [ none ↦ "undefined" | some s ↦ s ]

-- `existing?.status === 'SENT' || existing?.sentAt`: a date is truthy.
abbrev pub already_sent : Option Delivery → Bool
already_sent none = false
already_sent (some d) = str_eq d.status "SENT" || elim d.sent_at [ none ↦ false | some t ↦ true ]

abbrev pub processing_change : ℕ → Change
processing_change t = record {
  status = "PROCESSING";
  sent_at = none;
  failed_at = none;
  error_message = none;
  retry_increment = 0;
  updated_at = t;
}

abbrev pub sent_change : ℕ → ℕ → Change
sent_change sent_at t = record {
  status = "SENT";
  sent_at = some sent_at;
  failed_at = none;
  error_message = none;
  retry_increment = 0;
  updated_at = t;
}

abbrev pub failed_change : String → ℕ → ℕ → Change
failed_change message failed_at t = record {
  status = "FAILED";
  sent_at = none;
  failed_at = some failed_at;
  error_message = some message;
  retry_increment = 1;
  updated_at = t;
}

module _ {X : Type 0} where
  abbrev pub on_world {ℓ} : {A : Type ℓ} → Action X A → Action (Worker X) A
  on_world m s = let (r, x) = m s.world in (r, record s { world = x })

  abbrev pub on_breakers : Action (CircuitBreakers × X) (Unit {0}) → Action (Worker X) (Unit {0})
  on_breakers m s =
      let (r, (bs, x)) = m (s.breakers, s.world) in (r, record s { breakers = bs; world = x })

  abbrev of_outcome {ℓ} : {A : Type ℓ} → Outcome A → Action (Worker X) A
  of_outcome r s = (r, s)

  abbrev count_error : Action (Worker X) (Unit {0})
  count_error = modify (λ s. record s { error_count = s.error_count + 1 })

-- The services that the worker is given.
pub record Services (X : Type 0) : Type 0 where
  pub now : Clock X
  pub wait : Timer X
  pub broker : Broker X
  pub db : Database X

module _ {X : Type 0} (services : Services X) where
  open services use {now, wait, broker, db}

  -- Date.now() or new Date()
  abbrev time : Action (Worker X) ℕ
  time = on_world (λ x. let (n, x') = now x in (returned n, x'))

  -- From the update to SENT on; `begun` is the time at which the handler began.
  unfoldable pub record_sent : ℕ → NotificationMessage → Action (Worker X) (Unit {0})
  record_sent begun m = do
    sent_at ← time
    updated_at ← time
    on_world (db.update (id_of m) (sent_change sent_at updated_at))
    ended ← time
    modify (λ s. record s { processed_count = s.processed_count + 1 })
    processed_at ← time
    modify (λ s. record s {
      last_processed_at = some processed_at;
      total_processing_time = s.total_processing_time +ℤ sub_nat ended begun;
    })

  -- From the update to PROCESSING on.
  unfoldable pub deliver : ℕ → NotificationMessage → Action (Worker X) (Unit {0})
  deliver begun m = do
    t ← time
    on_world (db.update (id_of m) (processing_change t))
    on_breakers (process_notification wait now m)
    record_sent begun m

  -- The message is looked up by its id, and skipped if it was sent before.
  unfoldable pub handle_valid : ℕ → NotificationMessage → Action (Worker X) (Unit {0})
  handle_valid begun m = do
    existing ← on_world (db.find_unique (id_of m))
    if already_sent existing then pure tt else deliver begun m

  unfoldable pub handle_message : ℕ → NotificationMessage → Action (Worker X) (Unit {0})
  handle_message begun m = if validate_message m then handle_valid begun m else count_error

  -- The `try` block.
  unfoldable pub handle_text : ℕ → Text → Action (Worker X) (Unit {0})
  unfolding parse
  handle_text begun empty = pure tt
  handle_text begun text = do
    json ← of_outcome (parse text)
    m ← of_outcome (as_message json)
    handle_message begun m

  -- The inner `try` block of the `catch`: retry queue or dead letters, then the row is FAILED.
  unfoldable pub reroute : Text → Error → Action (Worker X) (Unit {0})
  unfolding parse
  reroute empty e = pure tt
  reroute text e = do
    json ← of_outcome (parse text)
    m ← of_outcome (as_message json)
    on_world (send_to_retry_queue now broker m (error_text e))
    failed_at ← time
    updated_at ← time
    on_world (db.update (id_of m) (failed_change (error_text e) failed_at updated_at))

  unfoldable pub on_error : Text → Error → Action (Worker X) (Unit {0})
  on_error text e = do count_error; end ← time; try_catch (reroute text e) (λ e'. pure tt)

  unfoldable pub handle_notification : Text → Action (Worker X) (Unit {0})
  handle_notification text = do
    modify (λ s. record s { is_processing = true })
    begun ← time
    finally (try_catch (handle_text begun text) (on_error text))
        (λ s. record s { is_processing = false })
