-- ===== src/Retry/Service.antt =====
-- The class RetryService of src/notification/retry.service.ts.
pub mod Routing
pub mod Breakers
use high_throughput_notifica.Prelude.{
  ℕ, zero, suc, ◌+◌, ◌*◌, ◌^◌, String, concat, Bool, true, false, Option, none, some, List, [], ◌∷◌,
  ltb, if◌then◌else◌, decimal, lookup, insert,
}
use high_throughput_notifica.Prelude.Action.{
  Error, failure, Outcome, returned, threw, Action, pure, try_catch, ◌>>=◌, ◌>>◌,
}
use high_throughput_notifica.Kafka.Schema.{
  NotificationMessage, DeadLetter, notification, dead_letter, or_zero,
}
use high_throughput_notifica.Kafka.Producer.{Broker, RecordMetadata, Headers, send_to_topic}
use high_throughput_notifica.Retry.Breaker.{CircuitBreaker, Clock, new_breaker, execute}

abbrev pub max_retries : ℕ
max_retries = 5

abbrev pub backoff_base : ℕ
backoff_base = 1000

-- In milliseconds. A product of 1000 and a power of two below 2 ^ 1024 is an exact double.
unfoldable pub calculate_backoff_delay : ℕ → ℕ
calculate_backoff_delay retry_count = backoff_base * 2 ^ retry_count

unfoldable pub should_retry : ℕ → Bool
should_retry retry_count = ltb retry_count max_retries

abbrev read_clock : {X : Type 0} → Clock X → Action X ℕ
read_clock now x = let (n, x') = now x in (returned n, x')

abbrev pub dlq_headers : NotificationMessage → String → String → Headers
dlq_headers m error reason =
    ("dlq-reason", some reason)
    ∷ ("retry-count", some (decimal (or_zero m.retry_count)))
    ∷ ("original-error", some error)
    ∷ ("notification-id", m.id)
    ∷ []

abbrev pub retry_headers : ℕ → ℕ → String → Headers
retry_headers count delay error =
    ("retry-count", some (decimal count))
    ∷ ("backoff-delay", some (decimal delay))
    ∷ ("original-error", some error)
    ∷ ("retry-reason", some "processing-failure")
    ∷ []

module _ {X : Type 0} (now : Clock X) (broker : Broker X) where
  -- A failure to reach the dead letter queue is logged and swallowed.
  unfoldable pub send_to_dlq : NotificationMessage → String → String → Action X (Unit {0})
  send_to_dlq m error reason =
      try_catch
        (do
          failed_at ← read_clock now
          send_to_topic broker "notifications-dlq" m.user_id
              (dead_letter (record {
                notification = m;
                error = error;
                reason = reason;
                failed_at = failed_at;
                retry_count = or_zero m.retry_count;
              }))
              (dlq_headers m error reason)
          pure tt)
        (λ e. pure tt)

  unfoldable pub send_to_retry_queue : NotificationMessage → String → Action X (Unit {0})
  unfolding calculate_backoff_delay should_retry
  send_to_retry_queue m error =
      let new_retry_count = or_zero m.retry_count + 1 in
      let backoff_delay = calculate_backoff_delay (or_zero m.retry_count) in
      if should_retry new_retry_count
      then try_catch
          (do
            send_to_topic broker "notifications-retry" m.user_id
                (notification (record m { retry_count = some new_retry_count }))
                (retry_headers new_retry_count backoff_delay error)
            pure tt)
          (λ e. send_to_dlq m error "retry_queue_failure")
      else send_to_dlq m error "max_retries_exceeded"

-- `circuitBreakers`
abbrev pub CircuitBreakers : Type 0
CircuitBreakers = List (String × CircuitBreaker)

abbrev pub or_new : String → Option CircuitBreaker → CircuitBreaker
or_new name none = new_breaker name
or_new name (some cb) = cb

-- The breaker of a service, made on its first use.
unfoldable pub get_circuit_breaker : String → CircuitBreakers → CircuitBreaker
get_circuit_breaker name bs = or_new name (lookup name bs)

module _ {X A : Type 0} (now : Clock X) where
  -- The map holds the breaker by reference: what `execute` does to it is seen in the map.
  unfoldable pub execute_with_circuit_breaker : String → Action X A → Action (CircuitBreakers × X) A
  execute_with_circuit_breaker name fn (bs, x) =
      let (r, (cb, x')) = execute now fn (get_circuit_breaker name bs, x) in
      (r, (insert name cb bs, x'))
