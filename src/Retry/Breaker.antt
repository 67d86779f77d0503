-- ===== src/Retry/Breaker.antt =====
-- The class CircuitBreaker of src/notification/retry.service.ts. Times are milliseconds;
-- `Clock` is Date.now(), which each reading may move on.
pub mod Invariant
pub mod Recovery
pub mod Phase
use high_throughput_notifica.Prelude.{
  ℕ, zero, suc, ◌+◌, String, concat, Bool, true, false, Option, none, some, leb, if◌then◌else◌,
}
use high_throughput_notifica.Prelude.Action.{Error, failure, Outcome, returned, threw, Action}

abbrev pub Clock : Type 0 → Type 0
Clock X = X → ℕ × X

pub data State : Type 0 where
  closed opened half_open : State

pub record CircuitBreaker : Type 0 where
  pub service_name : String
  pub state : State
  pub failure_count : ℕ
  pub success_count : ℕ
  pub last_failure_time : Option ℕ

abbrev pub failure_threshold : ℕ
failure_threshold = 5

abbrev pub success_threshold : ℕ
success_threshold = 2

abbrev pub timeout : ℕ
timeout = 30000

unfoldable pub new_breaker : String → CircuitBreaker
new_breaker name = record {
  service_name = name;
  state = closed;
  failure_count = 0;
  success_count = 0;
  last_failure_time = none;
}

success_in : State → CircuitBreaker → CircuitBreaker
success_in half_open cb =
    if leb success_threshold (cb.success_count + 1)
    then record cb { state = closed; success_count = 0 }
    else record cb { success_count = cb.success_count + 1 }
success_in _ cb = cb

unfoldable pub on_success : CircuitBreaker → CircuitBreaker
unfolding success_in
on_success cb = success_in cb.state (record cb { failure_count = 0 })

failure_in : State → CircuitBreaker → CircuitBreaker
failure_in half_open cb = record cb { state = opened; success_count = 0 }
failure_in _ cb =
    if leb failure_threshold cb.failure_count then record cb { state = opened } else cb

-- `now` is what Date.now() returns.
unfoldable pub on_failure : ℕ → CircuitBreaker → CircuitBreaker
unfolding failure_in
on_failure now cb =
    failure_in cb.state
      (record cb { failure_count = cb.failure_count + 1; last_failure_time = some now })

-- The test of `shouldAttemptReset` at the time `now`; a failure time of 0 is falsy.
unfoldable pub reset_due : Option ℕ → ℕ → Bool
reset_due none now = false
reset_due (some zero) now = false
reset_due (some (suc t)) now = leb (suc t + timeout) now

half_opened : Bool → CircuitBreaker → CircuitBreaker
half_opened true cb = record cb { state = half_open }
half_opened false cb = cb

module _ {X : Type 0} (now : Clock X) where
  -- The clock is read only where there is a failure time.
  should_attempt_reset : Option ℕ → X → Bool × X
  unfolding reset_due
  should_attempt_reset none x = (false, x)
  should_attempt_reset (some zero) x = (false, x)
  should_attempt_reset (some (suc t)) x = let (n, x') = now x in (reset_due (some (suc t)) n, x')

  admit_in : State → CircuitBreaker → X → CircuitBreaker × X
  unfolding should_attempt_reset half_opened
  admit_in opened cb x =
      let (due, x') = should_attempt_reset cb.last_failure_time x in (half_opened due cb, x')
  admit_in _ cb x = (cb, x)

  -- The first `if` of `execute`: an open circuit whose time is over turns half open.
  unfoldable pub admit : CircuitBreaker → X → CircuitBreaker × X
  unfolding admit_in
  admit cb x = admit_in cb.state cb x

  module _ {A : Type 0} where
    -- What the outcome of the protected call does to the breaker. A failure reads the clock.
    unfoldable pub settle : CircuitBreaker → Outcome A → X → Outcome A × (CircuitBreaker × X)
    unfolding on_success on_failure
    settle cb (returned a) x = (returned a, (on_success cb, x))
    settle cb (threw e) x = let (n, x') = now x in (threw e, (on_failure n cb, x'))

    run_in : State → Action X A → CircuitBreaker → X → Outcome A × (CircuitBreaker × X)
    unfolding settle
    run_in opened fn cb x =
        (threw (failure (concat "Circuit breaker OPEN for " cb.service_name)), (cb, x))
    run_in _ fn cb x = settle cb (fn x).0 (fn x).1

    unfoldable pub execute : Action X A → Action (CircuitBreaker × X) A
    unfolding admit run_in
    execute fn (cb, x) = let (cb', x') = admit cb x in run_in cb'.state fn cb' x'
