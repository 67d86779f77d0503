-- ===== src/Tests/Messages.antt =====
-- Messages for the examples.
use high_throughput_notifica.Worker
use high_throughput_notifica.Kafka.Schema.{
  blank, NotificationMessage, Payload, object, string_value,
}
use high_throughput_notifica.Prelude.{[], false, none, some}
use high_throughput_notifica.Prelude.Int.{pos}
use high_throughput_notifica.Tests.World.{World, dawn}
use high_throughput_notifica.Worker.{Worker}

abbrev pub letter : Payload
letter = record {
  subject = some (string_value "Welcome");
  body = some (string_value "Hello");
  «from» = none;
  «to» = some (string_value "ann@example.com");
  token = none;
  topic = none;
  title = none;
  url = none;
  method = none;
}

-- An email for Ann, with all that SendGrid wants.
abbrev pub mail : NotificationMessage
mail = record blank {
  id = some "n1";
  user_id = some "ann";
  type = some "TRANSACTIONAL";
  channel = some "EMAIL";
  payload = object letter;
  retry_count = some 0;
}

-- The same without a recipient.
abbrev pub unaddressed : NotificationMessage
unaddressed = record mail { payload = object (record letter { «to» = none }) }

abbrev pub fresh_worker : Worker.Worker World
fresh_worker = record {
  is_processing = false;
  processed_count = 0;
  error_count = 0;
  last_processed_at = none;
  total_processing_time = pos 0;
  breakers = [];
  world = dawn;
}
