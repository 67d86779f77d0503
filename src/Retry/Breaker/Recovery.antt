-- ===== src/Retry/Breaker/Recovery.antt =====
-- When a circuit opens, fails fast and recovers.
use high_throughput_notifica.Prelude.{
  ◌⊎◌, inl, inr, ℕ, suc, ◌+◌, ◌≤◌, ◌<◌, concat, ◌≡◌, ◌≢◌, some, List, [], ◌∷◌, arith, leb,
  if◌then◌else◌,
}
use high_throughput_notifica.Prelude.Action.{Error, failure, returned, threw, Action}
use high_throughput_notifica.Retry.Breaker.{
  CircuitBreaker, closed, opened, half_open, Clock, on_failure, execute, failure_threshold, timeout,
}
use high_throughput_notifica.Retry.Breaker.Invariant.{IsValid}
use high_throughput_notifica.Prelude.Action.{Outcome-cases}
use high_throughput_notifica.Retry.Breaker.{admit}

-- The breaker after failures at the listed times, one after another.
pub failures : List ℕ → CircuitBreaker → CircuitBreaker
failures [] cb = cb
failures (t ∷ ts) cb = failures ts (on_failure t cb)

abbrev count {ℓ} : {A : Type ℓ} → List A → ℕ
count [] = 0
count (x ∷ xs) = suc (count xs)

failures_opened :
    (ts : List ℕ) (cb : CircuitBreaker) → cb.state ≡ opened → (failures ts cb).state ≡ opened
unfolding failures
failures_opened [] cb h = h
failures_opened (t ∷ ts) cb h =
    failures_opened ts (on_failure t cb) (unfold on_failure in ground arith)

pub on_failure_closed :
    (t : ℕ) (cb : CircuitBreaker)
    → cb.state ≡ closed
    → ((failure_threshold ≤ cb.failure_count + 1) × ((on_failure t cb).state ≡ opened))
      ⊎ ((cb.failure_count + 1 < failure_threshold)
          × ((on_failure t cb).state ≡ closed)
          × ((on_failure t cb).failure_count ≡ cb.failure_count + 1))
unfolding on_failure
on_failure_closed t cb h = ground arith

-- Without a success between them, failures open a closed circuit with less than five exactly when the fifth is
-- reached, counting those that it had.
pub failures-opened_iff :
    (ts : List ℕ) (cb : CircuitBreaker)
    → cb.state ≡ closed
    → cb.failure_count < failure_threshold
    → (failures ts cb).state
      ≡ (if leb failure_threshold (cb.failure_count + count ts) then opened else closed)
unfolding failures
failures-opened_iff [] cb h b = ground arith
failures-opened_iff (t ∷ ts) cb h b = elim (on_failure_closed t cb h) [
  | inl (full, open_now) ↦ ground (arith, failures_opened ts (on_failure t cb) open_now)
  | inr (below, still, counted) ↦
      ground (arith, failures-opened_iff ts (on_failure t cb) still (omega arith))
]

module _ {X A : Type 0} (now : Clock X) (fn : Action X A) where
  -- An open circuit whose 30 seconds are not over refuses a call without making it: only the clock
  -- was read, the breaker is as it was and the error names the service.
  pub execute_fails_fast :
      (cb : CircuitBreaker) (x : X) (t : ℕ)
      → cb.state ≡ opened
      → cb.last_failure_time ≡ some (suc t)
      → (now x).0 < suc t + timeout
      → execute now fn (cb, x)
        ≡ (threw (failure (concat "Circuit breaker OPEN for " cb.service_name)), (cb, (now x).1))
  unfolding execute
  execute_fails_fast cb x t h l b = ground arith

  -- A call that goes through has the outcome of the protected function.
  pub execute_passes :
      (cb : CircuitBreaker) (x : X) → cb.state ≢ opened → (execute now fn (cb, x)).0 ≡ (fn x).0
  unfolding execute
  execute_passes cb x h = ground arith

  -- A valid breaker that is open and whose 30 seconds are over makes the call. Two successes in a row, at any two
  -- later states of the world, close it again, with both counts at zero.
  pub execute_recovers :
      (cb : CircuitBreaker) (x y : X) (t : ℕ) (a b : A)
      → IsValid cb
      → cb.state ≡ opened
      → cb.last_failure_time ≡ some (suc t)
      → suc t + timeout ≤ (now x).0
      → (fn (now x).1).0 ≡ returned a
      → (fn y).0 ≡ returned b
      → let cb' = (execute now fn (cb, x)).1.0 in
        let cb'' = (execute now fn (cb', y)).1.0 in
        (cb'.state ≡ half_open)
        × (cb''.state ≡ closed)
        × (cb''.failure_count ≡ 0)
        × (cb''.success_count ≡ 0)
  unfolding execute
  execute_recovers cb x y t a b v h l d fa fb = ground arith

  -- While the circuit is half open one failure opens it again, for 30 seconds from that failure.
  pub execute_reopens :
      (cb : CircuitBreaker) (x : X) (e : Error)
      → cb.state ≡ half_open
      → (fn x).0 ≡ threw e
      → let r = execute now fn (cb, x) in
        (r.0 ≡ threw e)
        × (r.1.0.state ≡ opened)
        × (r.1.0.success_count ≡ 0)
        × (r.1.0.last_failure_time ≡ some (now (fn x).1).0)
  unfolding execute
  execute_reopens cb x e h fe = ground arith

  -- What a call that throws leaves of a closed breaker, and of an open one.
  pub execute_failing_closed :
      (cb : CircuitBreaker) (x : X)
      → cb.state ≡ closed
      → ((a : A) → (fn x).0 ≢ returned a)
      → (execute now fn (cb, x)).1.0 ≡ on_failure (now (fn x).1).0 cb
  unfolding execute
  execute_failing_closed cb x h f = elim (Outcome-cases (fn x).0) [
    | inl (a, e) ↦ absurd (f a e)
    | inr (err, e) ↦ ground arith
  ]

  pub execute_failing_opened :
      (cb : CircuitBreaker) (x : X)
      → cb.state ≡ opened
      → ((y : X) (a : A) → (fn y).0 ≢ returned a)
      → (execute now fn (cb, x)).1.0.state ≡ opened
  unfolding execute
  execute_failing_opened cb x h f = elim (Outcome-cases (fn (admit now cb x).1).0) [
    | inl (a, e) ↦ absurd (f (admit now cb x).1 a e)
    | inr (err, e) ↦ ground arith
  ]
