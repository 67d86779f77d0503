-- ===== src/RateLimit/Sequence.antt =====
-- The throughput of a guard over a Redis that works: the bound on the bucket holds for `check`.
use high_throughput_notifica.Redis
use high_throughput_notifica.Prelude.{Bool, String, none, some, suc, true, zero, ℕ, ◌<◌, ◌≡◌, ◌≤◌}
use high_throughput_notifica.Prelude.Action.{Outcome, returned, threw}
use high_throughput_notifica.RateLimit.{Bucket, Doubles, Limits, check, refill, take}
use high_throughput_notifica.RateLimit.Throughput.{Rounding}
use high_throughput_notifica.Redis.{Client, Stored, value}
use high_throughput_notifica.Redis.Store.{Store}
use high_throughput_notifica.Retry.Breaker.{Clock}
use high_throughput_notifica.Prelude.{Option-cases, arith, eq_iff, inl, inr, ◌*◌, ◌+◌, ◌-◌}
use high_throughput_notifica.Prelude.Action.{Error, limited}
use high_throughput_notifica.Prelude.Int.{neg_part, pos_part}
use high_throughput_notifica.RateLimit.{retry_after}
use high_throughput_notifica.RateLimit.Guard.{check_allows, check_refuses}
use high_throughput_notifica.RateLimit.Throughput.{spans, take-refill, take-refill_scaled}
use high_throughput_notifica.Prelude.{ap}

module _ {X : Type 0} (now : Clock X) (client : Redis.Client X Bucket) where
  -- What the bound relies on of Redis and the clock: reads and writes are answered, and the time
  -- `at` does not fall.
  pub record Live (store : Store client) : Type 0 where
    pub at : X → ℕ
    pub reads : (k : String) (x : X) → (client.get k x).0 ≡ returned (store.stored x k)
    pub read_keeps : (k : String) (x : X) → store.stored (client.get k x).1 k ≡ store.stored x k
    pub writes :
        (k : String) (ttl : ℕ) (v : Redis.Stored Bucket) (x : X)
        → (client.setex k ttl v x).0 ≡ returned tt
    pub clock_keeps : (k : String) (x : X) → store.stored (now x).1 k ≡ store.stored x k
    pub clock_rises : (x : X) → (at x ≤ (now x).0) × ((now x).0 ≤ at (now x).1)
    pub read_rises : (k : String) (x : X) → at x ≤ at (client.get k x).1
    pub write_rises :
        (k : String) (ttl : ℕ) (v : Redis.Stored Bucket) (x : X)
        → at x ≤ at (client.setex k ttl v x).1

module _ (d : Doubles) (limits : Limits) {X : Type 0} (now : Clock X)
    (client : Redis.Client X Bucket) where
  -- One more for a request that was let through.
  abbrev counted : Outcome Bool → ℕ → ℕ
  counted (returned b) k = suc k
  counted (threw e) k = k

  -- So many checks of one key, one after another: how many let their request through, and the
  -- state at the end.
  pub let_through : String → ℕ → X → ℕ × X
  let_through key zero x = (0, x)
  let_through key (suc n) x =
      let (r, x') = check d limits now client key x in
      let rest = let_through key n x' in (counted r rest.0, rest.1)

  module _ (rounding : Rounding d limits) (store : Store client)
      (live : Live now client store) where
    open rounding use {never_negative, never_more}
    open limits use {refill_rate, refill_interval}
    open store use {stored, setex_writes}
    open live use {at, reads, read_keeps, writes, clock_keeps, clock_rises, read_rises, write_rises}

    -- The bucket that is stored under a key.
    abbrev Holds : String → X → Bucket → Type 0
    Holds key x b = stored x key ≡ some (Redis.encoded (Redis.value b))

    check_refused :
        (key : String) (x : X) (b : Bucket)
        → Holds key x b
        → take (refill d limits (now x).0 b) ≡ none
        → ((e : Error) × ((check d limits now client key x).0 ≡ threw e))
          × Holds key (check d limits now client key x).1 b
          × ((now x).0 ≤ at (check d limits now client key x).1)
    check_refused key x b s t =
        let y : X = (now x).1 in
        let z : X = (client.get key y).1 in
        let found : client.get key y ≡ (returned (some (Redis.encoded (Redis.value b))), z) =
          ground (arith, reads key y, clock_keeps key x) in
        let answer = check_refuses d limits now client key x z b found t in
        (
          (
            limited limits.message (retry_after d limits (refill d limits (now x).0 b)),
            ground arith,
          ),
          ground (arith, answer, read_keeps key y, clock_keeps key x),
          ground (arith, answer, clock_rises x, read_rises key y),
        )

    check_admitted :
        (key : String) (x : X) (b b' : Bucket)
        → 0 < refill_interval
        → Holds key x b
        → take (refill d limits (now x).0 b) ≡ some b'
        → ((check d limits now client key x).0 ≡ returned true)
          × Holds key (check d limits now client key x).1 b'
          × ((now x).0 ≤ at (check d limits now client key x).1)
    check_admitted key x b b' i s t =
        let y : X = (now x).1 in
        let z : X = (client.get key y).1 in
        let ttl = refill_interval * 2 in
        let v = Redis.encoded (Redis.value b') in
        let found : client.get key y ≡ (returned (some (Redis.encoded (Redis.value b))), z) =
          ground (arith, reads key y, clock_keeps key x) in
        let answer = check_allows d limits now client key x z b b' i found t (writes key ttl v z) in
        (
          ground (arith, answer),
          ground (arith, answer, setex_writes key ttl v z key (writes key ttl v z), eq_iff key key),
          ground (arith, answer, clock_rises x, read_rises key y, write_rises key ttl v z),
        )

    -- The bound, and that time has passed.
    Bounded : String → ℕ → X → Bucket → Type 0
    Bounded key n x b =
        ((let_through key n x).0 * (refill_interval * 1000)
          ≤ pos_part b.tokens * (refill_interval * 1000)
            + (at (let_through key n x).1 - b.last_refill) * refill_rate)
        × (at x ≤ at (let_through key n x).1)

    let_through-Bounded :
        (key : String) (n : ℕ) (x : X) (b : Bucket)
        → 0 < refill_interval
        → Holds key x b
        → neg_part b.tokens ≡ 0
        → b.last_refill ≤ at x
        → Bounded key n x b
    unfolding let_through Bounded
    let_through-Bounded key zero x b i s g l = (omega arith, omega arith)
    let_through-Bounded key (suc n) x b i s g l =
        let t : ℕ = (now x).0 in
        let later : b.last_refill ≤ t = omega (arith, l, clock_rises x) in
        let x' : X = (check d limits now client key x).1 in
        elim (Option-cases (take (refill d limits t b))) [
          | inl e ↦
              let ((err, r), kept, after) = check_refused key x b s e in
              let rest = let_through-Bounded key n x' b i kept g (omega (arith, later, after)) in
              let same : (let_through key (suc n) x).0 ≡ (let_through key n x').0 =
                ap (λ (o : Outcome Bool). counted o (let_through key n x').0) r in
              (rw same rest.0, omega (arith, rest.1, after, clock_rises x))
          | inr (b', e) ↦
              let (r, kept, after) = check_admitted key x b b' i s e in
              let step = take-refill d limits rounding t b b' g later e in
              let rest =
                let_through-Bounded key n x' b' i kept step.1 (omega (arith, step.0, after)) in
              let same : (let_through key (suc n) x).0 ≡ suc (let_through key n x').0 =
                ap (λ (o : Outcome Bool). counted o (let_through key n x').0) r in
              (
                rw same (
                    omega (
                      arith,
                      rest.0,
                      take-refill_scaled d limits rounding t b b' g later e,
                      spans d limits rounding b.last_refill t b'.last_refill
                          (at (let_through key n x').1) later step.0 (omega (arith, after, rest.1)),
                    )),
                omega (arith, rest.1, after, clock_rises x),
              )
        ]

    -- However many requests of one user come, and whenever, each after the guard is done with the
    -- one before: those that it lets through are at most the tokens that were stored and those that
    -- the rate earns from the stored time to the end. (The stored tokens are not negative, the
    -- stored time is not in the future, and the interval is not 0. Redis answers, the clock does
    -- not fall, and rounding adds no token.)
    pub let_through_bounded :
        (key : String) (n : ℕ) (x : X) (b : Bucket)
        → 0 < refill_interval
        → stored x key ≡ some (Redis.encoded (Redis.value b))
        → neg_part b.tokens ≡ 0
        → b.last_refill ≤ at x
        → (let_through key n x).0 * (refill_interval * 1000)
          ≤ pos_part b.tokens * (refill_interval * 1000)
            + (at (let_through key n x).1 - b.last_refill) * refill_rate
    unfolding Bounded
    let_through_bounded key n x b i s g l = (let_through-Bounded key n x b i s g l).0
