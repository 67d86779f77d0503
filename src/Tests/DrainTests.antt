-- ===== src/Tests/DrainTests.antt =====
-- A wait for a message that is processed without end.
use high_throughput_notifica.Worker.{Worker}
use high_throughput_notifica.Prelude.{[], arith, none, some, true, ℕ, ◌+◌, ◌/◌, ◌≡◌}
use high_throughput_notifica.Prelude.Int.{pos}
use high_throughput_notifica.Retry.Breaker.{Clock}
use high_throughput_notifica.Worker.Draining.{
  Drained, wait_for_processing, wait_for_processing-Drained,
}

-- The world is the clock.
abbrev ticking : Clock ℕ
ticking x = (x, x + 1)

abbrev asleep : ℕ → Worker ℕ → Worker ℕ
asleep interval w = record w { world = w.world + interval / 1000 + 1 }

abbrev stuck_worker : Worker ℕ
stuck_worker = record {
  is_processing = true;
  processed_count = 0;
  error_count = 0;
  last_processed_at = none;
  total_processing_time = pos 0;
  breakers = [];
  world = 7;
}

wait_for_processing-Drained_example :
    (w : Worker ℕ) × (wait_for_processing ticking asleep 31 30 stuck_worker ≡ some w)
    × Drained ticking asleep
        (λ v. v.world)
        (λ v. (omega arith, omega arith))
        (λ i v. omega arith)
        37
        w
wait_for_processing-Drained_example =
    wait_for_processing-Drained ticking asleep (λ v. v.world) (λ v. (omega arith, omega arith))
      (λ i v. omega arith) 31 30 stuck_worker (omega arith)
