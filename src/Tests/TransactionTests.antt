-- ===== src/Tests/TransactionTests.antt =====
-- A transaction of two records, over topics that are seen and records that are pending.
use high_throughput_notifica.Kafka.Producer.{ProducerRecord}
use high_throughput_notifica.Kafka.Producer.Transaction.{
  Atomic, Transactions, WholeOrNone, send_all, send_in_transaction, send_in_transaction-WholeOrNone,
}
use high_throughput_notifica.Prelude.{List, [], inl, refl, ◌++◌, ◌∷◌, ◌≡◌}
use high_throughput_notifica.Prelude.Action.{returned}
use high_throughput_notifica.Retry.Service.Routing.{retry_record}
use high_throughput_notifica.Tests.Messages.{mail}

-- One transaction at a time, number 0.
abbrev transactions : Transactions (List ProducerRecord × List ProducerRecord)
transactions = record {
  begin = λ (seen, open_records). (returned 0, (seen, []));
  send = λ t r (seen, open_records). (
    returned (record { topic_name = r.topic; partition = 0; base_offset = 0 } ∷ []),
    (seen, open_records ++ r ∷ []),
  );
  commit = λ t (seen, open_records). (returned tt, (seen ++ open_records, []));
  abort = λ t (seen, open_records). (returned tt, (seen, []));
}

unfoldable transactions-Atomic : Atomic transactions
transactions-Atomic = record {
  topics = λ s. s.0;
  pending = λ t s. s.1;
  begun = λ x {t} h. refl;
  begin_hides = λ x. refl;
  sent = λ t r x {ms} h. refl;
  send_hides = λ t r x. refl;
  commits = λ t x h. refl;
  commits_whole = λ t x. inl refl;
  abort_hides = λ t x. refl;
}

abbrev two : List ProducerRecord
two = retry_record mail "a" ∷ retry_record mail "b" ∷ []

shown : (send_in_transaction transactions two ([], [])).1.0 ≡ two
unfolding send_in_transaction send_all
shown = refl

send_in_transaction-WholeOrNone_example :
    WholeOrNone transactions transactions-Atomic two
      ([], [])
      (send_in_transaction transactions two ([], [])).0
      (send_in_transaction transactions two ([], [])).1
send_in_transaction-WholeOrNone_example =
    send_in_transaction-WholeOrNone transactions transactions-Atomic two ([], [])
