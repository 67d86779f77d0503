-- ===== src/Worker/Draining.antt =====
-- `waitForProcessing`, `getHealthMetrics` and `resetMetrics` of
-- src/notification/notification-worker.service.ts. The lag of the consumer, the texts of rounded
-- doubles, and what else runs while the wait sleeps are parameters. The interval between two polls
-- is counted in microseconds, in which it is whole.
use high_throughput_notifica.Kafka.Consumer.{ConsumerLag}
use high_throughput_notifica.Prelude.{
  Bool, Option, String, [], concat, false, if◌then◌else◌, int_text, ltb, min, none, some, suc, zero,
  ℕ, ◌*◌, ◌+◌, ◌/◌, ◌<◌, ◌≡◌, ◌≤◌, ◌⊎◌,
}
use high_throughput_notifica.Prelude.Action.{Action, Outcome, returned, threw}
use high_throughput_notifica.Prelude.Int.{ltb_ℤ, negsuc, pos, sub_nat, ℤ}
use high_throughput_notifica.Retry.Breaker.{Clock}
use high_throughput_notifica.Worker.{Worker}
use high_throughput_notifica.Prelude.{Bool-cases, arith, inl, inr}
use high_throughput_notifica.Prelude.{◌∙◌}

-- How long the wait sleeps at first, and at most.
abbrev pub first_interval : ℕ
first_interval = 100000

abbrev pub max_poll_interval : ℕ
max_poll_interval = 1000000

unfoldable pub next_interval : ℕ → ℕ
next_interval interval = min (interval * 3 / 2) max_poll_interval

-- The start of the worker beside its other fields.
pub record Running (X : Type 0) : Type 0 where
  pub start_time : ℕ
  pub worker : Worker X

-- `per_second n t` is `(n / (t / 1000)).toFixed(2)`, `share n m` is `((n / m) * 100).toFixed(2)`, and
-- `rounded t n` is `Math.round(t / n)`.
pub record Rounded : Type 0 where
  pub per_second : ℕ → ℤ → String
  pub share : ℤ → ℕ → String
  pub rounded : ℤ → ℕ → ℤ

pub record HealthMetrics : Type 0 where
  pub is_processing : Bool
  pub processed_count : ℕ
  pub error_count : ℕ
  pub success_rate : String
  pub last_processed_at : Option ℕ
  pub throughput : String
  pub avg_processing_time : String
  pub total_processing_time : String
  pub uptime : String
  pub consumer_lag : ConsumerLag

module _ {X : Type 0} (now : Clock X) where
  abbrev pub read_clock : Worker X → ℕ × Worker X
  read_clock w = let (t, x) = now w.world in (t, record w { world = x })

  module _ (sleep : ℕ → Worker X → Worker X) where
    -- The `while` loop, on the number of rounds left: none where they do not suffice. The clock is
    -- read only while a message is processed.
    unfoldable pub wait_loop : ℕ → ℕ → ℕ → ℕ → Worker X → Option (Worker X)
    unfolding next_interval
    wait_loop zero begun timeout_ms interval w = none
    wait_loop (suc n) begun timeout_ms interval w =
        let (t, read) = read_clock w in
        let more = wait_loop n begun timeout_ms (next_interval interval) (sleep interval read) in
        if w.is_processing
        then (if ltb_ℤ (sub_nat t begun) (pos timeout_ms) then more else some read)
        else some w

    unfoldable pub wait_for_processing : ℕ → ℕ → Worker X → Option (Worker X)
    unfolding wait_loop
    wait_for_processing fuel timeout_ms w =
        let (begun, read) = read_clock w in wait_loop fuel begun timeout_ms first_interval read

    module _ (at : Worker X → ℕ)
        (clock_reads : (w : Worker X)
          → (at w ≤ (read_clock w).0) × ((read_clock w).0 ≤ at (read_clock w).1))
        (sleep_passes : (interval : ℕ) (w : Worker X) → at w + 1 ≤ at (sleep interval w)) where
      -- No message is being processed, or the time is out.
      abbrev pub Drained : ℕ → Worker X → Type 0
      Drained deadline w = (w.is_processing ≡ false) ⊎ (deadline ≤ at w)

      abbrev Ending : Option (Worker X) → ℕ → Type 0
      Ending r deadline = (w : Worker X) × (r ≡ some w) × Drained deadline w

      -- A round ends the loop, or goes on before the time is out.
      wait_loop_round :
          (n begun limit interval : ℕ) (w : Worker X)
          → Ending (wait_loop (suc n) begun limit interval w) (begun + limit)
            ⊎ (((read_clock w).0 < begun + limit)
                × (wait_loop (suc n) begun limit interval w
                    ≡ wait_loop n begun limit
                        (next_interval interval)
                        (sleep interval (read_clock w).1)))
      unfolding wait_loop
      wait_loop_round n begun limit interval w = elim (Bool-cases w.is_processing) [
        | inr unused ↦ inl (w, ground (arith, unused), inl unused)
        | inl busy ↦ elim (Bool-cases (ltb_ℤ (sub_nat (read_clock w).0 begun) (pos limit))) [
          | inr late ↦ inl (
            (read_clock w).1,
            ground (arith, busy, late),
            inr (ground (arith, late, clock_reads w)),
          )
          | inl early ↦ inr (ground (arith, early), ground (arith, busy, early))
        ]
      ]

      wait_loop-Ending :
          (n begun limit interval : ℕ) (w : Worker X)
          → begun + limit ≤ at w + n
          → Ending (wait_loop (suc n) begun limit interval w) (begun + limit)
      wait_loop-Ending zero begun limit interval w h =
          elim (wait_loop_round zero begun limit interval w) [
            | inl r ↦ r
            | inr (early, e) ↦ absurd (omega (arith, early, clock_reads w))
          ]
      wait_loop-Ending (suc n) begun limit interval w h =
          elim (wait_loop_round (suc n) begun limit interval w) [
            | inl r ↦ r
            | inr (early, e) ↦
                let read : Worker X = (read_clock w).1 in
                let (w', ends, drained) =
                  wait_loop-Ending n begun limit (next_interval interval) (sleep interval read)
                    (omega (arith, h, clock_reads w, sleep_passes interval read)) in
                (w', e ∙ ends, drained)
          ]

      -- Where the clock never goes back, and every sleep lets a millisecond pass at least, the wait
      -- ends, in at most as many rounds as the time-out has milliseconds and one more: then no
      -- message is being processed, or the time is out.
      pub wait_for_processing-Drained :
          (fuel timeout_ms : ℕ) (w : Worker X)
          → timeout_ms < fuel
          → (w' : Worker X) × (wait_for_processing fuel timeout_ms w ≡ some w')
            × Drained ((read_clock w).0 + timeout_ms) w'
      unfolding wait_for_processing
      wait_for_processing-Drained zero timeout_ms w f = absurd (omega arith)
      wait_for_processing-Drained (suc n) timeout_ms w f =
          wait_loop-Ending n (read_clock w).0 timeout_ms first_interval (read_clock w).1
            (omega (arith, clock_reads w))

  unfoldable pub reset_metrics : Running X → Running X
  reset_metrics r =
      let (t, read) = read_clock r.worker in
      record r {
        start_time = t;
        worker = record read {
          processed_count = 0;
          error_count = 0;
          last_processed_at = none;
          total_processing_time = pos 0;
        };
      }

  abbrev lag_or_unknown : Outcome ConsumerLag → ConsumerLag
  lag_or_unknown (returned lag) = lag
  lag_or_unknown (threw e) = record { total_lag = negsuc 0; partition_lag = [] }

  unfoldable pub get_health_metrics :
      Rounded → Action X ConsumerLag → Running X → HealthMetrics × Running X
  get_health_metrics formats measure_lag r =
      let (lag, x) = measure_lag r.worker.world in
      let (t, x') = now x in
      let w = r.worker in
      let up = sub_nat t r.start_time in
      (
        record {
          is_processing = w.is_processing;
          processed_count = w.processed_count;
          error_count = w.error_count;
          success_rate =
              if ltb 0 w.processed_count
              then concat
                  (formats.share (sub_nat w.processed_count w.error_count) w.processed_count) "%"
              else "N/A";
          last_processed_at = w.last_processed_at;
          throughput =
              concat (if ltb_ℤ (pos 0) up then formats.per_second w.processed_count up else "0")
                " msg/s";
          avg_processing_time =
              concat
                (int_text (
                  if ltb 0 w.processed_count
                  then formats.rounded w.total_processing_time w.processed_count
                  else pos 0))
                "ms";
          total_processing_time = concat (int_text w.total_processing_time) "ms";
          uptime = concat (int_text (formats.rounded up 1000)) "s";
          consumer_lag = lag_or_unknown lag;
        },
        record r { worker = record w { world = x' } },
      )
