-- ===== src/RateLimit/Throughput.antt =====
-- How many requests a token bucket lets through.
use native.Mathlib.Nat.{mul-le-mul_right}
use high_throughput_notifica.Prelude.{
  List, [], arith, none, some, suc, ℕ, ◌*◌, ◌+◌, ◌-◌, ◌∷◌, ◌≡◌, ◌≤◌,
}
use high_throughput_notifica.Prelude.Int.{neg_part, pos, pos_part, ◌+ℤ◌, ◌-ℤ◌}
use high_throughput_notifica.RateLimit.{Bucket, Doubles, Limits, refill, take, tokens_to_add}
use high_throughput_notifica.Prelude.{Option-cases, inl, inr}
use high_throughput_notifica.Prelude.{ap}

-- What the bound relies on of double arithmetic: for an elapsed time of `e` milliseconds the guard
-- adds no negative count, and no more tokens than the rate earns in that time.
pub record Rounding (d : Doubles) (limits : Limits) : Type 0 where
  pub never_negative : (e : ℕ) → neg_part (tokens_to_add d limits (pos e)) ≡ 0
  pub never_more :
      (e : ℕ)
      → pos_part (tokens_to_add d limits (pos e)) * (limits.refill_interval * 1000)
        ≤ e * limits.refill_rate

-- Times that do not fall, from `lo` to `hi`.
abbrev pub Ascending : ℕ → List ℕ → ℕ → Type 0
Ascending lo [] hi = lo ≤ hi
Ascending lo (t ∷ ts) hi = (lo ≤ t) × Ascending t ts hi

module _ (d : Doubles) (limits : Limits) where
  -- Requests at the listed times against one bucket: how many are let through. A request that is
  -- refused stores nothing.
  unfoldable pub accepted : Bucket → List ℕ → ℕ
  accepted b [] = 0
  accepted b (t ∷ ts) = elim (take (refill d limits t b)) [
    | none ↦ accepted b ts
    | some b' ↦ suc (accepted b' ts)
  ]

  module _ (rounding : Rounding d limits) where
    open rounding use {never_negative, never_more}
    open limits use {refill_rate, refill_interval}

    pub take-refill :
        (t : ℕ) (b b' : Bucket)
        → neg_part b.tokens ≡ 0
        → b.last_refill ≤ t
        → take (refill d limits t b) ≡ some b'
        → (b'.last_refill ≡ t)
          × (neg_part b'.tokens ≡ 0)
          × (pos_part b'.tokens + 1
              ≤ pos_part b.tokens + pos_part (tokens_to_add d limits (pos (t - b.last_refill))))
    unfolding take refill ◌+ℤ◌ ◌-ℤ◌
    take-refill t b b' n l h = ground (arith, never_negative (t - b.last_refill))

    Ascending-le : (lo hi : ℕ) (ts : List ℕ) → Ascending lo ts hi → lo ≤ hi
    Ascending-le lo hi [] a = a
    Ascending-le lo hi (t ∷ ts) a = omega (arith, Ascending-le t hi ts a.1)

    pub spans :
        (last t u hi : ℕ)
        → last ≤ t
        → u ≡ t
        → t ≤ hi
        → (hi - last) * refill_rate ≡ (t - last) * refill_rate + (hi - u) * refill_rate
    spans last t u hi p q r =
        let split : hi - last ≡ t - last + (hi - u) = omega arith in
        omega (arith, ap (λ (n : ℕ). n * refill_rate) split)

    pub take-refill_scaled :
        (t : ℕ) (b b' : Bucket)
        → neg_part b.tokens ≡ 0
        → b.last_refill ≤ t
        → take (refill d limits t b) ≡ some b'
        → (pos_part b'.tokens + 1) * (refill_interval * 1000)
          ≤ pos_part b.tokens * (refill_interval * 1000) + (t - b.last_refill) * refill_rate
    take-refill_scaled t b b' n l h = omega (
      arith,
      mul-le-mul_right (refill_interval * 1000) (take-refill t b b' n l h).2,
      never_more (t - b.last_refill),
    )

    -- From a bucket without debts, over any rising times from its last refill on, the requests let through are at most the tokens at the start and
    -- those that the rate earns from the last refill to the end: nobody gains by timing.
    pub accepted_bounded :
        (b : Bucket) (lo hi : ℕ) (ts : List ℕ)
        → neg_part b.tokens ≡ 0
        → b.last_refill ≤ lo
        → Ascending lo ts hi
        → accepted b ts * (refill_interval * 1000)
          ≤ pos_part b.tokens * (refill_interval * 1000) + (hi - b.last_refill) * refill_rate
    unfolding accepted
    accepted_bounded b lo hi [] n l a = omega arith
    accepted_bounded b lo hi (t ∷ ts) n l a = elim (Option-cases (take (refill d limits t b))) [
      | inl e ↦ rw (e, accepted) (accepted_bounded b t hi ts n (omega arith) a.1)
      | inr (b', e) ↦
          let step = take-refill t b b' n (omega arith) e in
          let rest = accepted_bounded b' t hi ts step.1 (omega arith) a.1 in
          rw (e, accepted)
            (omega (
              arith,
              rest,
              take-refill_scaled t b b' n (omega arith) e,
              spans b.last_refill t b'.last_refill hi (omega arith) step.0
                  (Ascending-le t hi ts a.1),
            ))
    ]

    -- A bucket without debts that was not touched while the rate earns a full one is as good as new: that its key
    -- expires after such a time changes no decision.
    pub refill_expired :
        (t : ℕ) (b : Bucket)
        → neg_part b.tokens ≡ 0
        → b.last_refill ≤ t
        → limits.max_tokens ≤ pos_part (tokens_to_add d limits (pos (t - b.last_refill)))
        → refill d limits t b
          ≡ refill d limits t (record { tokens = pos limits.max_tokens; last_refill = t })
    unfolding refill ◌+ℤ◌
    refill_expired t b n l e = ground (arith, never_negative (t - b.last_refill), never_negative 0)
