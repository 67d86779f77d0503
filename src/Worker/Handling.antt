-- ===== src/Worker/Handling.antt =====
-- What one call of the message handler does to the worker, whatever the broker, the database and
-- the providers do.
use high_throughput_notifica.Kafka.Schema.{NotificationMessage, Text}
use high_throughput_notifica.Prelude.{Bool, ◌&&◌, arith, false, ℕ, ◌+◌, ◌≡◌, ◌≢◌, ◌⊎◌}
use high_throughput_notifica.Prelude.Action.{returned, threw}
use high_throughput_notifica.Worker.{
  Services, Worker, deliver, handle_message, handle_notification, handle_text, handle_valid,
  on_error, record_sent,
}
use high_throughput_notifica.Kafka.Schema.{
  blank, dead_letter, empty, encoded, malformed, notification, null, primitive,
}
use high_throughput_notifica.Prelude.{true}
use high_throughput_notifica.Prelude.Action.{Error, Outcome}
use high_throughput_notifica.Worker.{id_of, reroute}
use high_throughput_notifica.Prelude.{inl, inr}
use high_throughput_notifica.Prelude.Action.{Outcome-cases}
use high_throughput_notifica.Worker.{Delivery, already_sent, validate_message}
use high_throughput_notifica.Prelude.{Option, refl}

module _ {X : Type 0} (services : Services X) where
  open services use {now, wait, broker, db}

  -- The handler never throws and leaves the worker idle.
  pub handle_notification_returns :
      (text : Text) (s : Worker X)
      → ((handle_notification services text s).0 ≡ returned tt)
        × ((handle_notification services text s).1.is_processing ≡ false)
  unfolding handle_notification on_error
  handle_notification_returns text s = ground arith

  record_sent-counts :
      (begun : ℕ) (m : NotificationMessage) (s : Worker X)
      → let (r, s') = record_sent services begun m s in
        ((r ≡ returned tt)
          × (s'.processed_count ≡ s.processed_count + 1)
          × (s'.error_count ≡ s.error_count))
        ⊎ ((r ≢ returned tt)
            × (s'.processed_count ≡ s.processed_count)
            × (s'.error_count ≡ s.error_count))
  unfolding record_sent
  record_sent-counts begun m s = ground arith

  deliver-counts :
      (begun : ℕ) (m : NotificationMessage) (s : Worker X)
      → let (r, s') = deliver services begun m s in
        ((r ≡ returned tt)
          × (s'.processed_count ≡ s.processed_count + 1)
          × (s'.error_count ≡ s.error_count))
        ⊎ ((r ≢ returned tt)
            × (s'.processed_count ≡ s.processed_count)
            × (s'.error_count ≡ s.error_count))
  unfolding deliver record_sent
  deliver-counts begun m s = ground arith

  -- A block that threw has counted nothing.
  abbrev pub Uncounted : Worker X → Worker X → Outcome (Unit {0}) → Type 0
  Uncounted s s' r =
      (r ≢ returned tt)
      × (s'.processed_count ≡ s.processed_count)
      × (s'.error_count ≡ s.error_count)

  pub handle_valid-counts :
      (begun : ℕ) (m : NotificationMessage) (s : Worker X)
      → let (r, s') = handle_valid services begun m s in
        ((r ≡ returned tt)
          × (s'.error_count ≡ s.error_count)
          × ((s'.processed_count ≡ s.processed_count)
              ⊎ (s'.processed_count ≡ s.processed_count + 1)))
        ⊎ Uncounted s s' r
  unfolding handle_valid
  handle_valid-counts begun m s =
      ground
        (arith, deliver-counts begun m (record s { world = (db.find_unique (id_of m) s.world).1 }))

  -- The look-up found a row that says that the message was sent.
  abbrev pub found_sent : Outcome (Option Delivery) → Bool
  found_sent (returned d) = already_sent d
  found_sent (threw e) = false

  -- The texts with nothing to do: the empty one, and a valid message whose row, as the handler finds
  -- it, says that it was sent.
  unfoldable pub is_skipped : Text → Worker X → Bool
  is_skipped (encoded (notification m)) s =
      validate_message m && found_sent (db.find_unique (id_of m) (now s.world).1).0
  is_skipped empty s = true
  is_skipped _ s = false

  blank_invalid : validate_message blank ≡ false
  unfolding validate_message
  blank_invalid = refl

  -- What the handler counts: nothing for a text that is skipped, and for every other either one
  -- message processed or one error.
  abbrev pub Counted : Bool → Worker X → Worker X → Type 0
  Counted skipped s s' =
      ((skipped ≡ true)
        × (s'.processed_count ≡ s.processed_count)
        × (s'.error_count ≡ s.error_count))
      ⊎ ((skipped ≡ false)
          × (s'.processed_count ≡ s.processed_count + 1)
          × (s'.error_count ≡ s.error_count))
      ⊎ ((skipped ≡ false)
          × (s'.processed_count ≡ s.processed_count)
          × (s'.error_count ≡ s.error_count + 1))

  -- Before the error handler: what was returned is counted, and what threw is not yet.
  abbrev Finished : Bool → Worker X → Worker X → Outcome (Unit {0}) → Type 0
  Finished skipped s s' r =
      ((r ≡ returned tt) × Counted skipped s s') ⊎ ((skipped ≡ false) × Uncounted s s' r)

  handle_valid-Finished :
      (begun : ℕ) (m : NotificationMessage) (s : Worker X)
      → let (r, s') = handle_valid services begun m s in
        Finished (found_sent (db.find_unique (id_of m) s.world).0) s s' r
  unfolding handle_valid
  handle_valid-Finished begun m s =
      ground
        (arith, deliver-counts begun m (record s { world = (db.find_unique (id_of m) s.world).1 }))

  handle_text-Finished :
      (text : Text) (s : Worker X)
      → let s₁ : Worker X = record s { is_processing = true; world = (now s.world).1 } in
        let (r, s') = handle_text services (now s.world).0 text s₁ in
        Finished (is_skipped text s) s₁ s' r
  unfolding handle_text handle_message is_skipped
  handle_text-Finished empty s = ground arith
  handle_text-Finished malformed s = ground arith
  handle_text-Finished (encoded null) s = ground arith
  handle_text-Finished (encoded primitive) s = ground (arith, blank_invalid)
  handle_text-Finished (encoded (notification m)) s =
      let s₁ : Worker X = record s { is_processing = true; world = (now s.world).1 } in
      ground (arith, handle_valid-Finished (now s.world).0 m s₁)
  handle_text-Finished (encoded (dead_letter d)) s = ground (arith, blank_invalid)

  pub on_error-counts :
      (text : Text) (e : Error) (s : Worker X)
      → let s' = (on_error services text e s).1 in
        (s'.processed_count ≡ s.processed_count) × (s'.error_count ≡ s.error_count + 1)
  unfolding on_error reroute
  on_error-counts empty e s = ground arith
  on_error-counts malformed e s = ground arith
  on_error-counts (encoded null) e s = ground arith
  on_error-counts (encoded primitive) e s = ground arith
  on_error-counts (encoded (notification m)) e s = ground arith
  on_error-counts (encoded (dead_letter d)) e s = ground arith

  -- Every call of the handler counts its message once, as processed or as an error and never both,
  -- unless the text is empty or a valid message that its row says was sent, and then it counts
  -- nothing.
  pub handle_notification-Counted :
      (text : Text) (s : Worker X)
      → Counted (is_skipped text s) s (handle_notification services text s).1
  unfolding handle_notification
  handle_notification-Counted text s =
      let s₁ : Worker X = record s { is_processing = true; world = (now s.world).1 } in
      let s₂ : Worker X = (handle_text services (now s.world).0 text s₁).1 in
      elim (Outcome-cases (handle_text services (now s.world).0 text s₁).0) [
        | inl (u, e) ↦ ground (arith, handle_text-Finished text s)
        | inr (err, e) ↦ ground (arith, handle_text-Finished text s, on_error-counts text err s₂)
      ]

  -- A message whose row says that it was sent is skipped: beyond the clock and the one look-up
  -- nothing is called, and counters and breakers stay as they are.
  pub handle_notification_skips :
      (m : NotificationMessage) (s : Worker X) (d : Option Delivery)
      → validate_message m ≡ true
      → (db.find_unique (id_of m) (now s.world).1).0 ≡ returned d
      → already_sent d ≡ true
      → handle_notification services (encoded (notification m)) s ≡ (
        returned tt,
        record s { is_processing = false; world = (db.find_unique (id_of m) (now s.world).1).1 },
      )
  unfolding handle_notification handle_text handle_message handle_valid
  handle_notification_skips m s d v f a = ground arith
