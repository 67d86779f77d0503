-- ===== src/Tests/RoutingTests.antt =====
-- A failed message that the retry queue refuses.
use high_throughput_notifica.Kafka.Producer.{Broker}
use high_throughput_notifica.Prelude.{false, str_eq, true}
use high_throughput_notifica.Prelude.Action.{failure, threw}
use high_throughput_notifica.Tests.World.{World, broker}

abbrev refusing : Broker World
refusing = record {
  send = λ r w. elim (str_eq r.topic "notifications-dlq") [
    | true ↦ broker.send r w
    | false ↦ (threw (failure "no leader"), w)
  ];
}
