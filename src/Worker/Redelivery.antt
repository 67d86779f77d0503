-- ===== src/Worker/Redelivery.antt =====
-- A message that was sent is not sent again when the broker delivers it again.
use high_throughput_notifica.Kafka.Schema.{NotificationMessage}
use high_throughput_notifica.Prelude.{Option, String, arith, some, true, ℕ, ◌≡◌}
use high_throughput_notifica.Prelude.Action.{returned}
use high_throughput_notifica.Worker.{
  Delivery, Services, Worker, already_sent, id_of, record_sent, sent_change,
}
use high_throughput_notifica.Processor.{process_notification}
use high_throughput_notifica.Worker.{deliver, handle_valid, processing_change}
use high_throughput_notifica.Kafka.Schema.{encoded, notification}
use high_throughput_notifica.Prelude.{inl, inr}
use high_throughput_notifica.Prelude.Action.{Outcome-cases}
use high_throughput_notifica.Worker.{
  handle_message, handle_notification, handle_text, validate_message,
}
use high_throughput_notifica.Worker.Handling.{
  handle_notification_skips, handle_notification_returns, handle_valid-counts, on_error-counts,
}

-- What redelivery relies on of the database: `rows` is what a look-up returns, an update that
-- returns sets status and sentAt, and neither a look-up nor
-- the clock changes a row.
pub record Rows {X : Type 0} (services : Services X) : Type 0 where
  pub rows : X → String → Option Delivery
  pub found :
      (id : String) (x : X) {d : Option Delivery}
      → (services.db.find_unique id x).0 ≡ returned d
      → d ≡ rows x id
  pub sent :
      (id : String) (sent_at t : ℕ) (x : X)
      → (services.db.update id (sent_change sent_at t) x).0 ≡ returned tt
      → rows (services.db.update id (sent_change sent_at t) x).1 id
        ≡ some (record { status = "SENT"; sent_at = some sent_at })
  pub unread : (id : String) (x : X) → rows (services.db.find_unique id x).1 id ≡ rows x id
  pub unmoved : (id : String) (x : X) → rows (services.now x).1 id ≡ rows x id

module _ {X : Type 0} (services : Services X) (log : Rows services) where
  open services use {now, db}
  open log use {rows, found, sent, unread, unmoved}

  -- A block that recorded a message as sent leaves a row that says so.
  record_sent-already_sent :
      (begun : ℕ) (m : NotificationMessage) (s : Worker X)
      → (record_sent services begun m s).0 ≡ returned tt
      → already_sent (rows (record_sent services begun m s).1.world (id_of m)) ≡ true
  unfolding record_sent
  record_sent-already_sent begun m s h =
      let x₁ : X = (now s.world).1 in
      let x₂ : X = (now x₁).1 in
      let x₃ : X = (db.update (id_of m) (sent_change (now s.world).0 (now x₁).0) x₂).1 in
      ground (
        arith,
        sent (id_of m) (now s.world).0 (now x₁).0 x₂,
        unmoved (id_of m) x₃,
        unmoved (id_of m) (now x₃).1,
      )

  deliver-already_sent :
      (begun : ℕ) (m : NotificationMessage) (s : Worker X)
      → (deliver services begun m s).0 ≡ returned tt
      → already_sent (rows (deliver services begun m s).1.world (id_of m)) ≡ true
  unfolding deliver
  deliver-already_sent begun m s h =
      let t : ℕ = (now s.world).0 in
      let x₁ : X = (db.update (id_of m) (processing_change t) (now s.world).1).1 in
      let done = process_notification services.wait now m (s.breakers, x₁) in
      let s₁ : Worker X = record s { breakers = done.1.0; world = done.1.1 } in
      ground (arith, record_sent-already_sent begun m s₁)

  handle_valid-already_sent :
      (begun : ℕ) (m : NotificationMessage) (s : Worker X)
      → (handle_valid services begun m s).0 ≡ returned tt
      → already_sent (rows (handle_valid services begun m s).1.world (id_of m)) ≡ true
  unfolding handle_valid
  handle_valid-already_sent begun m s h =
      let s₁ : Worker X = record s { world = (db.find_unique (id_of m) s.world).1 } in
      elim (Outcome-cases (db.find_unique (id_of m) s.world).0) [
        | inl (d, e) ↦ ground (
          arith,
          deliver-already_sent begun m s₁,
          found (id_of m) s.world e,
          unread (id_of m) s.world,
        )
        | inr (err, e) ↦ ground arith
      ]

  -- Once the handler has gone through a message without an error, that is, has sent it or found it
  -- sent, its row says so.
  handle_notification-already_sent :
      (m : NotificationMessage) (s : Worker X)
      → validate_message m ≡ true
      → (handle_notification services (encoded (notification m)) s).1.error_count ≡ s.error_count
      → already_sent
          (rows (handle_notification services (encoded (notification m)) s).1.world (id_of m))
        ≡ true
  unfolding handle_notification handle_text handle_message
  handle_notification-already_sent m s v h =
      let s₁ : Worker X = record s { is_processing = true; world = (now s.world).1 } in
      let s₂ : Worker X = (handle_valid services (now s.world).0 m s₁).1 in
      elim (Outcome-cases (handle_valid services (now s.world).0 m s₁).0) [
        | inl (u, e) ↦ ground (arith, handle_valid-already_sent (now s.world).0 m s₁ e)
        | inr (err, e) ↦ ground (
          arith,
          handle_valid-counts services (now s.world).0 m s₁,
          on_error-counts services (encoded (notification m)) err s₂,
        )
      ]

  -- If the handler went through a valid message without an error, the broker delivers the message
  -- again and the database answers, the second call reads the clock and looks the row up, and does
  -- nothing else: no provider is called, and no counter, breaker or row changes.
  pub redelivery_skipped :
      (m : NotificationMessage) (s s' : Worker X) (d : Option Delivery)
      → validate_message m ≡ true
      → handle_notification services (encoded (notification m)) s ≡ (returned tt, s')
      → s'.error_count ≡ s.error_count
      → (db.find_unique (id_of m) (now s'.world).1).0 ≡ returned d
      → handle_notification services (encoded (notification m)) s'
        ≡ (returned tt, record s' { world = (db.find_unique (id_of m) (now s'.world).1).1 })
  redelivery_skipped m s s' d v h n f = ground (
    arith,
    handle_notification_skips services m s' d v f,
    handle_notification-already_sent m s v,
    handle_notification_returns services (encoded (notification m)) s,
    found (id_of m) (now s'.world).1 f,
    unmoved (id_of m) s'.world,
  )
