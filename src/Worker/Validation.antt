-- ===== src/Worker/Validation.antt =====
-- What the worker does with a message that is not complete.
use high_throughput_notifica.Kafka.Schema.{
  DeadLetter, NotificationMessage, Text, absent, dead_letter, encoded, notification, primitive,
  scalar,
}
use high_throughput_notifica.Prelude.{Option, String, none, some, ◌≡◌, ◌⊎◌}
use high_throughput_notifica.Worker.{Worker}

-- A field that is missing, or the empty text.
abbrev pub Lacking : Option String → Type 0
Lacking o = (o ≡ none) ⊎ (o ≡ some "")

-- A message without an id, a user, a type or a channel, or whose payload is missing or no object.
pub data Incomplete (m : NotificationMessage) : Type 0 where
  no_id : Lacking m.id → Incomplete m
  no_user : Lacking m.user_id → Incomplete m
  no_type : Lacking m.type → Incomplete m
  no_channel : Lacking m.channel → Incomplete m
  no_object : (m.payload ≡ absent) ⊎ (m.payload ≡ scalar) → Incomplete m

-- Texts that parse, to something that is no complete message: an incomplete one, a number, boolean
-- or string, and a dead letter.
pub data Invalid : Text → Type 0 where
  incomplete : (m : NotificationMessage) → Incomplete m → Invalid (encoded (notification m))
  bare : Invalid (encoded primitive)
  foreign : (d : DeadLetter) → Invalid (encoded (dead_letter d))
