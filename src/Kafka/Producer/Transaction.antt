-- ===== src/Kafka/Producer/Transaction.antt =====
-- `sendInTransaction` of src/kafka/kafka-producer.service.ts. The transactions of the kafkajs
-- producer are the parameter `Transactions`; a transaction is named by a number.
use mathlib.Core.List.{append-nil, append_assoc}
use high_throughput_notifica.Prelude.{
  ap, refl, ◌∙◌, ◌⊎◌, inr, inl, ℕ, ◌+◌, ◌≡◌, List, [], ◌∷◌, ◌++◌, length, length-append, arith,
}
use high_throughput_notifica.Prelude.Action.{
  threw, Outcome, Error, returned, Action, pure, throw, try_catch, ◌>>=◌, ◌>>◌, Outcome-cases,
  proceed-returned,
}
use high_throughput_notifica.Kafka.Producer.{ProducerRecord, RecordMetadata}

pub record Transactions (X : Type 0) : Type 0 where
  pub begin : Action X ℕ
  pub send : ℕ → ProducerRecord → Action X (List RecordMetadata)
  pub commit : ℕ → Action X (Unit {0})
  pub abort : ℕ → Action X (Unit {0})

module _ {X : Type 0} (tx : Transactions X) where
  -- The loop over the records; `results` holds what the earlier ones returned.
  unfoldable pub send_all :
      ℕ → List (List RecordMetadata) → List ProducerRecord → Action X (List (List RecordMetadata))
  send_all t results [] = pure results
  send_all t results (r ∷ rs) = do metadata ← tx.send t r; send_all t (results ++ metadata ∷ []) rs

  unfoldable pub send_in_transaction : List ProducerRecord → Action X (List (List RecordMetadata))
  send_in_transaction rs = do
    t ← tx.begin
    try_catch (do results ← send_all t [] rs; tx.commit t; pure results)
        (λ e. tx.abort t >> throw e)

-- What the account of a transaction relies on: `topics` are the records that consumers see, and
-- `pending` those of an open transaction. Only a commit shows records, all of its transaction's or
-- none, and all if it goes through.
pub record Atomic {X : Type 0} (tx : Transactions X) : Type 0 where
  pub topics : X → List ProducerRecord
  pub pending : ℕ → X → List ProducerRecord
  pub begun : (x : X) {t : ℕ} → (tx.begin x).0 ≡ returned t → pending t (tx.begin x).1 ≡ []
  pub begin_hides : (x : X) → topics (tx.begin x).1 ≡ topics x
  pub sent :
      (t : ℕ) (r : ProducerRecord) (x : X) {ms : List RecordMetadata}
      → (tx.send t r x).0 ≡ returned ms
      → pending t (tx.send t r x).1 ≡ pending t x ++ r ∷ []
  pub send_hides : (t : ℕ) (r : ProducerRecord) (x : X) → topics (tx.send t r x).1 ≡ topics x
  pub commits :
      (t : ℕ) (x : X)
      → (tx.commit t x).0 ≡ returned tt
      → topics (tx.commit t x).1 ≡ topics x ++ pending t x
  pub commits_whole :
      (t : ℕ) (x : X)
      → (topics (tx.commit t x).1 ≡ topics x ++ pending t x) ⊎ (topics (tx.commit t x).1 ≡ topics x)
  pub abort_hides : (t : ℕ) (x : X) → topics (tx.abort t x).1 ≡ topics x

module _ {X : Type 0} (tx : Transactions X) (atomic : Atomic tx) where
  open atomic use {
    topics, pending, begun, begin_hides, sent, send_hides, commits, commits_whole, abort_hides,
  }

  -- The loop shows nothing.
  topics-send_all :
      (t : ℕ) (results : List (List RecordMetadata)) (rs : List ProducerRecord) (x : X)
      → topics (send_all tx t results rs x).1 ≡ topics x
  unfolding send_all
  topics-send_all t results [] x = refl
  topics-send_all t results (r ∷ rs) x = elim (Outcome-cases (tx.send t r x).0) [
    | inl (ms, e) ↦
        ground
          (arith, send_hides t r x, topics-send_all t (results ++ ms ∷ []) rs (tx.send t r x).1)
    | inr (err, e) ↦ ground (arith, send_hides t r x)
  ]

  -- A finished loop has added its records to the transaction, with one result for each.
  pending-send_all :
      (t : ℕ) (results : List (List RecordMetadata)) (rs : List ProducerRecord) (x x' : X)
      (out : List (List RecordMetadata))
      → send_all tx t results rs x ≡ (returned out, x')
      → (pending t x' ≡ pending t x ++ rs) × (length out ≡ length results + length rs)
  unfolding send_all
  pending-send_all t results [] x x' out h =
      (ground (arith, append-nil (pending t x)), ground arith)
  pending-send_all t results (r ∷ rs) x x' out h =
      let (ms, e, rest) =
        proceed-returned (λ m. send_all tx t (results ++ m ∷ []) rs) (tx.send t r x).0
          (tx.send t r x).1 x' h in
      let (added, counted) =
        pending-send_all t (results ++ ms ∷ []) rs (tx.send t r x).1 x' out rest in
      (
        added ∙ ap (λ l. l ++ rs) (sent t r x e) ∙ append_assoc (pending t x) (r ∷ []) rs,
        omega (arith, counted, length-append results (ms ∷ [])),
      )

  -- What became of the records `rs`: all are shown if the call returned, with a result for each,
  -- and all or none if it threw.
  abbrev pub WholeOrNone :
      List ProducerRecord → X → Outcome (List (List RecordMetadata)) → X → Type 0
  WholeOrNone rs x r x' =
      ((out : List (List RecordMetadata)) × (r ≡ returned out)
        × (length out ≡ length rs)
        × (topics x' ≡ topics x ++ rs))
      ⊎ ((e : Error) × (r ≡ threw e) × ((topics x' ≡ topics x) ⊎ (topics x' ≡ topics x ++ rs)))

  -- An abort passes the error on, unless it throws one itself.
  aborted :
      (t : ℕ) (e : Error) (x : X)
      → (e' : Error) × ((tx.abort t >> throw {A = List (List RecordMetadata)} e) x
          ≡ (threw e', (tx.abort t x).1))
  aborted t e x = elim (Outcome-cases (tx.abort t x).0) [
    | inl (u, h) ↦ (e, ground (arith, h))
    | inr (e', h) ↦ (e', ground (arith, h))
  ]

  -- The part behind the beginning of the transaction.
  transacted :
      (t : ℕ) (rs : List ProducerRecord) (x : X)
      → pending t x ≡ []
      → let (r, x') =
          try_catch
            (do results ← send_all tx t [] rs; tx.commit t; pure results)
            (λ e. tx.abort t >> throw e)
            x in
        WholeOrNone rs x r x'
  transacted t rs x empty_yet =
      let y : X = (send_all tx t [] rs x).1 in
      let z : X = (tx.commit t y).1 in
      elim (Outcome-cases (send_all tx t [] rs x).0) [
        | inl (out, e) ↦
            let (added, counted) = pending-send_all t [] rs x y out (ground arith) in
            elim (Outcome-cases (tx.commit t y).0) [
              | inl (u, done) ↦ inl (
                out,
                ground (arith, e, done),
                ground (arith, counted),
                ground (arith, e, done, commits t y, added, topics-send_all t [] rs x),
              )
              | inr (err, failed) ↦
                  let (e', thrown) = aborted t err z in
                  inr (
                    e',
                    ground (arith, e, failed, thrown),
                    ground (
                      arith,
                      e,
                      failed,
                      thrown,
                      commits_whole t y,
                      abort_hides t z,
                      added,
                      topics-send_all t [] rs x,
                    ),
                  )
            ]
        | inr (err, failed) ↦
            let (e', thrown) = aborted t err y in
            inr (
              e',
              ground (arith, failed, thrown),
              inl (ground (arith, failed, thrown, abort_hides t y, topics-send_all t [] rs x)),
            )
      ]

  -- A call of `sendInTransaction` shows the consumers all of its records, in their order, or none:
  -- all if it returns, and then it returns one result for each record.
  pub send_in_transaction-WholeOrNone :
      (rs : List ProducerRecord) (x : X)
      → let (r, x') = send_in_transaction tx rs x in WholeOrNone rs x r x'
  unfolding send_in_transaction
  send_in_transaction-WholeOrNone rs x = elim (Outcome-cases (tx.begin x).0) [
    | inl (t, e) ↦ elim (transacted t rs (tx.begin x).1 (begun x e)) [
      | inl (out, a, b, c) ↦ inl (out, ground (arith, e, a), b, ground (arith, e, c, begin_hides x))
      | inr (e', a, c) ↦ inr (e', ground (arith, e, a), ground (arith, e, c, begin_hides x))
    ]
    | inr (err, e) ↦ inr (err, ground (arith, e), inl (ground (arith, e, begin_hides x)))
  ]
