-- ===== src/Tests/BreakerTests.antt =====
-- Circuit breakers that open, refuse, recover and open again.
use high_throughput_notifica.Retry.Breaker.{closed}
use high_throughput_notifica.Prelude.{[], arith, refl, some, ℕ, ◌+◌, ◌≡◌}
use high_throughput_notifica.Prelude.Action.{Action, failure, returned, threw}
use high_throughput_notifica.Retry.Breaker.{
  CircuitBreaker, admit, execute, half_open, new_breaker, on_failure, on_success, opened,
}
use high_throughput_notifica.Retry.Breaker.Invariant.{
  History, History-new_breaker-IsValid, IsValid, enter, fail, idle, next, succeed,
}
use high_throughput_notifica.Retry.Breaker.Phase.{execute-guarded, guarded, phase, probing}
use high_throughput_notifica.Retry.Breaker.Recovery.{execute_recovers}
use high_throughput_notifica.Retry.Service.{execute_with_circuit_breaker, get_circuit_breaker}
use high_throughput_notifica.Retry.Service.Breakers.{
  AllValid, AllValid-nil, execute_with_circuit_breaker-execute,
}
use high_throughput_notifica.Tests.World.{World, dawn, tick}

abbrev tripped_breaker : CircuitBreaker
tripped_breaker = record {
  service_name = "twilio";
  state = opened;
  failure_count = 5;
  success_count = 0;
  last_failure_time = some 900;
}

abbrev testing_breaker : CircuitBreaker
testing_breaker = record tripped_breaker { state = half_open; success_count = 1 }

abbrev later : World
later = record dawn { clock = 40000 }

-- A call that works and one that does not, each of which takes 10 ms.
works : Action World ℕ
works w = (returned 7, record w { clock = w.clock + 10 })

breaks : Action World ℕ
breaks w = (threw (failure "503"), record w { clock = w.clock + 10 })

tripped_breaker-IsValid : IsValid tripped_breaker
tripped_breaker-IsValid = ground arith

testing_breaker-IsValid : IsValid testing_breaker
testing_breaker-IsValid = ground arith

execute-guarded_example :
    let (r, s) = execute tick works (testing_breaker, dawn) in
    (r, (phase s.0, s.1)) ≡ guarded tick works "twilio" (probing 1) dawn
execute-guarded_example = execute-guarded tick works testing_breaker dawn testing_breaker-IsValid

execute_recovers_example :
    let cb' = (execute tick works (tripped_breaker, later)).1.0 in
    let cb'' = (execute tick works (cb', later)).1.0 in
    (cb'.state ≡ half_open)
    × (cb''.state ≡ closed)
    × (cb''.failure_count ≡ 0)
    × (cb''.success_count ≡ 0)
unfolding works
execute_recovers_example =
    execute_recovers tick works tripped_breaker later later 899 7 7 tripped_breaker-IsValid refl
      refl (omega arith) refl refl

-- One call enters, another fails, and the first succeeds after it.
overlapping :
    History tick
      (new_breaker "fcm")
      (on_success (on_failure 5 (admit tick (new_breaker "fcm") dawn).0))
overlapping = next (next (next idle (enter dawn)) (fail 5)) succeed

History-new_breaker-IsValid_example :
    IsValid (on_success (on_failure 5 (admit tick (new_breaker "fcm") dawn).0))
History-new_breaker-IsValid_example = History-new_breaker-IsValid tick "fcm" overlapping

execute_with_circuit_breaker-execute_example :
    let (r, (bs, x)) = execute_with_circuit_breaker tick "twilio" breaks ([], dawn) in
    let (alone, (cb, y)) = execute tick breaks (get_circuit_breaker "twilio" [], dawn) in
    (r ≡ alone) × (x ≡ y) × (get_circuit_breaker "twilio" bs ≡ cb) × AllValid bs
execute_with_circuit_breaker-execute_example =
    execute_with_circuit_breaker-execute tick breaks "twilio" "twilio" [] dawn AllValid-nil
