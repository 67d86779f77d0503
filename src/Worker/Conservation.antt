-- ===== src/Worker/Conservation.antt =====
-- No message is lost: what the worker does not deliver it hands on, once.
use high_throughput_notifica.Kafka.Producer.{ProducerRecord, RecordMetadata}
use high_throughput_notifica.Kafka.Schema.{NotificationMessage}
use high_throughput_notifica.Prelude.{List, String, arith, ℕ, ◌≡◌}
use high_throughput_notifica.Prelude.Action.{returned}
use high_throughput_notifica.Processor.{send_email, send_push, send_sms, send_webhook}
use high_throughput_notifica.Processor.Delivery.{Provider, fcm, handler_of, sendgrid, twilio}
use high_throughput_notifica.Retry.Breaker.{CircuitBreaker, admit, execute}
use high_throughput_notifica.Retry.Service.Routing.{Log}
use high_throughput_notifica.Worker.{Change}
use high_throughput_notifica.Worker.{Services}
use high_throughput_notifica.Kafka.Schema.{encoded}
use high_throughput_notifica.Processor.Delivery.{webhook}
use high_throughput_notifica.Prelude.Action.{Action}
use high_throughput_notifica.Processor.{process_notification}
use high_throughput_notifica.Retry.Service.{
  CircuitBreakers, execute_with_circuit_breaker, get_circuit_breaker,
}
use high_throughput_notifica.Worker.{
  Worker, deliver, handle_valid, id_of, processing_change, record_sent, sent_change,
}
use high_throughput_notifica.Kafka.Schema.{notification, or_zero}
use high_throughput_notifica.Prelude.{
  Bool-cases, [], if◌then◌else◌, inl, inr, ltb, true, ◌++◌, ◌+◌, ◌∷◌, ◌⊎◌,
}
use high_throughput_notifica.Prelude.Action.{Error, Outcome-cases}
use high_throughput_notifica.Retry.Service.{send_to_retry_queue}
use high_throughput_notifica.Retry.Service.Routing.{
  dlq_record, retry_record, send_to_retry_queue_returns, topics-send_to_retry_queue,
  topics-send_to_retry_queue_exhausted,
}
use high_throughput_notifica.Worker.{
  error_text, failed_change, handle_message, handle_notification, handle_text, on_error, reroute,
  validate_message,
}
use high_throughput_notifica.Worker.Handling.{handle_valid-counts, on_error-counts}

module _ {X : Type 0} (services : Services X) where
  open services use {now, wait, broker, db}

  -- What the account of the topics relies on: only sends change them, and every send is accepted.
  pub record Reliable : Type 0 where
    pub log : Log now broker
    pub accepts :
        (r : ProducerRecord) (x : X)
        → (ms : List RecordMetadata) × ((broker.send r x).0 ≡ returned ms)
    pub find_quiet : (id : String) (x : X) → log.topics (db.find_unique id x).1 ≡ log.topics x
    pub update_quiet :
        (id : String) (c : Change) (x : X) → log.topics (db.update id c x).1 ≡ log.topics x
    pub wait_quiet : (ms : ℕ) (x : X) → log.topics (wait ms x) ≡ log.topics x

  module _ (reliable : Reliable) where
    open reliable use {log, accepts, find_quiet, update_quiet, wait_quiet}
    open log use {topics, untouched}

    topics-handler_of :
        (p : Provider) (m : NotificationMessage) (x : X)
        → topics (handler_of wait p m x).1 ≡ topics x
    unfolding handler_of send_email send_sms send_push send_webhook
    topics-handler_of sendgrid m x = ground (arith, wait_quiet 50 x)
    topics-handler_of twilio m x = ground (arith, wait_quiet 75 x)
    topics-handler_of fcm m x = ground (arith, wait_quiet 60 x)
    topics-handler_of webhook m x = ground (arith, wait_quiet 100 x)

    topics-admit : (cb : CircuitBreaker) (x : X) → topics (admit now cb x).1 ≡ topics x
    unfolding admit
    topics-admit cb x = ground (arith, untouched x)

    topics-execute :
        (fn : Action X (Unit {0}))
        → ((x : X) → topics (fn x).1 ≡ topics x)
        → (cb : CircuitBreaker) (x : X) → topics (execute now fn (cb, x)).1.1 ≡ topics x
    unfolding execute
    topics-execute fn quiet cb x =
        ground
          (arith, topics-admit cb x, quiet (admit now cb x).1, untouched (fn (admit now cb x).1).1)

    topics-execute_with_circuit_breaker :
        (name : String) (fn : Action X (Unit {0})) (s : CircuitBreakers × X)
        → ((x : X) → topics (fn x).1 ≡ topics x)
        → topics (execute_with_circuit_breaker now name fn s).1.1 ≡ topics s.1
    unfolding execute_with_circuit_breaker
    topics-execute_with_circuit_breaker name fn (bs, x) quiet =
        topics-execute fn quiet (get_circuit_breaker name bs) x

    topics-process_notification :
        (m : NotificationMessage) (s : CircuitBreakers × X)
        → topics (process_notification wait now m s).1.1 ≡ topics s.1
    unfolding process_notification handler_of
    topics-process_notification m s = ground (
      arith,
      topics-execute_with_circuit_breaker "sendgrid" (send_email wait m) s
          (topics-handler_of sendgrid m),
      topics-execute_with_circuit_breaker "twilio" (send_sms wait m) s (topics-handler_of twilio m),
      topics-execute_with_circuit_breaker "fcm" (send_push wait m) s (topics-handler_of fcm m),
      topics-execute_with_circuit_breaker "webhook" (send_webhook wait m) s
          (topics-handler_of webhook m),
    )

    topics-record_sent :
        (begun : ℕ) (m : NotificationMessage) (s : Worker X)
        → topics (record_sent services begun m s).1.world ≡ topics s.world
    unfolding record_sent
    topics-record_sent begun m s =
        let x₁ : X = (now s.world).1 in
        let x₂ : X = (now x₁).1 in
        let x₃ : X = (db.update (id_of m) (sent_change (now s.world).0 (now x₁).0) x₂).1 in
        ground (
          arith,
          untouched s.world,
          untouched x₁,
          update_quiet (id_of m) (sent_change (now s.world).0 (now x₁).0) x₂,
          untouched x₃,
          untouched (now x₃).1,
        )

    topics-deliver :
        (begun : ℕ) (m : NotificationMessage) (s : Worker X)
        → topics (deliver services begun m s).1.world ≡ topics s.world
    unfolding deliver
    topics-deliver begun m s =
        let t : ℕ = (now s.world).0 in
        let x₁ : X = (now s.world).1 in
        let x₂ : X = (db.update (id_of m) (processing_change t) x₁).1 in
        let done = process_notification wait now m (s.breakers, x₂) in
        let s₁ : Worker X = record s { breakers = done.1.0; world = done.1.1 } in
        ground (
          arith,
          untouched s.world,
          update_quiet (id_of m) (processing_change t) x₁,
          topics-process_notification m (s.breakers, x₂),
          topics-record_sent begun m s₁,
        )

    topics-handle_valid :
        (begun : ℕ) (m : NotificationMessage) (s : Worker X)
        → topics (handle_valid services begun m s).1.world ≡ topics s.world
    unfolding handle_valid
    topics-handle_valid begun m s =
        let x₁ : X = (db.find_unique (id_of m) s.world).1 in
        ground
          (arith, find_quiet (id_of m) s.world, topics-deliver begun m (record s { world = x₁ }))

    -- What a failed message becomes: a retry record, or a dead letter with the time of its making.
    abbrev pub handed_on : NotificationMessage → String → ℕ → ProducerRecord
    handed_on m error t =
        if ltb (or_zero m.retry_count) 4
        then retry_record m error
        else dlq_record m error "max_retries_exceeded" t

    topics-routed :
        (m : NotificationMessage) (error : String) (x : X)
        → topics (send_to_retry_queue now broker m error x).1
          ≡ topics x ++ handed_on m error (now x).0 ∷ []
    topics-routed m error x = elim (Bool-cases (ltb (or_zero m.retry_count) 4)) [
      | inl below ↦
          let (ms, e) = accepts (retry_record m error) x in
          rw below (topics-send_to_retry_queue now broker log m error x (ground arith) e)
      | inr over ↦
          let (ms, e) = accepts (dlq_record m error "max_retries_exceeded" (now x).0) (now x).1 in
          rw over (topics-send_to_retry_queue_exhausted now broker log m error x (ground arith) e)
    ]

    topics-on_error :
        (m : NotificationMessage) (e : Error) (s : Worker X)
        → (t : ℕ) × (topics (on_error services (encoded (notification m)) e s).1.world
            ≡ topics s.world ++ handed_on m (error_text e) t ∷ [])
    unfolding on_error reroute
    topics-on_error m e s =
        let x₁ : X = (now s.world).1 in
        let x₂ : X = (send_to_retry_queue now broker m (error_text e) x₁).1 in
        let x₃ : X = (now x₂).1 in
        let x₄ : X = (now x₃).1 in
        (
          (now x₁).0,
          ground (
            arith,
            untouched s.world,
            topics-routed m (error_text e) x₁,
            send_to_retry_queue_returns now broker m (error_text e) x₁,
            untouched x₂,
            untouched x₃,
            update_quiet (id_of m) (failed_change (error_text e) (now x₂).0 (now x₃).0) x₄,
          ),
        )

    -- While the broker accepts every record, a valid message is either gone through without an
    -- error and adds nothing to the topics, or counted as an error and added to them exactly once:
    -- to the retry queue below a count of four, else to the dead letters.
    pub handle_notification_conserves :
        (m : NotificationMessage) (s : Worker X)
        → validate_message m ≡ true
        → let s' = (handle_notification services (encoded (notification m)) s).1 in
          ((s'.error_count ≡ s.error_count) × (topics s'.world ≡ topics s.world))
          ⊎ ((s'.error_count ≡ s.error_count + 1)
              × (error : String) × (t : ℕ) × (topics s'.world
                  ≡ topics s.world ++ handed_on m error t ∷ []))
    unfolding handle_notification handle_text handle_message
    handle_notification_conserves m s v =
        let begun : ℕ = (now s.world).0 in
        let s₁ : Worker X = record s { is_processing = true; world = (now s.world).1 } in
        let s₂ : Worker X = (handle_valid services begun m s₁).1 in
        elim (Outcome-cases (handle_valid services begun m s₁).0) [
          | inl (u, e) ↦ inl (
            ground (arith, handle_valid-counts services begun m s₁),
            ground (arith, topics-handle_valid begun m s₁, untouched s.world),
          )
          | inr (err, e) ↦
              let (t, routed) = topics-on_error m err s₂ in
              inr (
                ground (
                  arith,
                  handle_valid-counts services begun m s₁,
                  on_error-counts services (encoded (notification m)) err s₂,
                ),
                error_text err,
                t,
                ground (arith, routed, topics-handle_valid begun m s₁, untouched s.world),
              )
        ]
