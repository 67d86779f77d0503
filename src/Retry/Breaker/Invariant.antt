-- ===== src/Retry/Breaker/Invariant.antt =====
-- What holds of a circuit breaker between and during calls, in whatever order they finish.
use high_throughput_notifica.Prelude.{ℕ, ◌<◌, String, ◌≡◌, ◌≢◌, none, arith}
use high_throughput_notifica.Retry.Breaker.{
  CircuitBreaker, closed, half_open, Clock, new_breaker, on_success, on_failure, admit,
  failure_threshold, success_threshold,
}

-- A closed breaker is below the failure threshold and a half-open one below the success
-- threshold; successes are counted only while half open; an open breaker has a failure time.
pub record IsValid (cb : CircuitBreaker) : Type 0 where
  pub closed_below : cb.state ≡ closed → cb.failure_count < failure_threshold
  pub testing_below : cb.state ≡ half_open → cb.success_count < success_threshold
  pub counted_testing : cb.state ≢ half_open → cb.success_count ≡ 0
  pub opened_timed : cb.state ≢ closed → cb.last_failure_time ≢ none

pub new_breaker-IsValid : (name : String) → IsValid (new_breaker name)
unfolding new_breaker
new_breaker-IsValid name = ground arith

pub on_success-IsValid : (cb : CircuitBreaker) → IsValid cb → IsValid (on_success cb)
unfolding on_success
on_success-IsValid cb v = ground arith

pub on_failure-IsValid : (t : ℕ) (cb : CircuitBreaker) → IsValid cb → IsValid (on_failure t cb)
unfolding on_failure
on_failure-IsValid t cb v = ground arith

module _ {X : Type 0} (now : Clock X) where
  pub admit-IsValid : (cb : CircuitBreaker) (x : X) → IsValid cb → IsValid (admit now cb x).0
  unfolding admit
  admit-IsValid cb x v = ground arith

  -- Calls overlap: between the entry of a call and its end others enter and end. So a history is
  -- any sequence of entries, successes and failures.
  pub data Move (cb : CircuitBreaker) : CircuitBreaker → Type 0 where
    enter : (x : X) → Move cb (admit now cb x).0
    succeed : Move cb (on_success cb)
    fail : (t : ℕ) → Move cb (on_failure t cb)

  pub data History (cb : CircuitBreaker) : CircuitBreaker → Type 0 where
    idle : History cb cb
    next : {c d : CircuitBreaker} → History cb c → Move c d → History cb d

  Move-IsValid : {c d : CircuitBreaker} → Move c d → IsValid c → IsValid d
  Move-IsValid {c} (enter x) v = admit-IsValid c x v
  Move-IsValid {c} succeed v = on_success-IsValid c v
  Move-IsValid {c} (fail t) v = on_failure-IsValid t c v

  pub History-IsValid : {c d : CircuitBreaker} → History c d → IsValid c → IsValid d
  History-IsValid idle v = v
  History-IsValid (next h m) v = Move-IsValid m (History-IsValid h v)

  -- Whatever calls have entered, succeeded and failed since it was made, and in whatever order,
  -- a breaker is valid: closed only below five failures, half open only below two successes,
  -- no successes counted elsewhere, and with a failure time unless it is closed.
  pub History-new_breaker-IsValid :
      (name : String) {cb : CircuitBreaker} → History (new_breaker name) cb → IsValid cb
  History-new_breaker-IsValid name h = History-IsValid h (new_breaker-IsValid name)
