-- ===== src/Retry/Breaker/Phase.antt =====
-- An abstract circuit breaker with three phases, and the proof that the class implements it.
use high_throughput_notifica.Prelude.{
  concat, String, ℕ, zero, suc, ◌+◌, ◌≡◌, Option, none, some, arith, leb, if◌then◌else◌,
}
use high_throughput_notifica.Retry.Breaker.{
  failure, threw, returned, execute, Outcome, Action, CircuitBreaker, State, closed, opened,
  half_open, Clock, on_success, on_failure, admit,
}
use high_throughput_notifica.Retry.Breaker.Invariant.{IsValid}

-- Healthy after so many failures in a row, tripped at a time, or probing after so many successes.
pub data Phase : Type 0 where
  healthy : ℕ → Phase
  tripped : ℕ → Phase
  probing : ℕ → Phase

abbrev or_never : Option ℕ → ℕ
or_never none = 0
or_never (some t) = t

abbrev phase_in : State → CircuitBreaker → Phase
phase_in closed cb = healthy cb.failure_count
phase_in opened cb = tripped (or_never cb.last_failure_time)
phase_in half_open cb = probing cb.success_count

abbrev pub phase : CircuitBreaker → Phase
phase cb = phase_in cb.state cb

abbrev pub succeeds : Phase → Phase
succeeds (healthy k) = healthy 0
succeeds (tripped t) = tripped t
succeeds (probing k) = if leb 2 (k + 1) then healthy 0 else probing (k + 1)

abbrev pub fails : ℕ → Phase → Phase
fails now (healthy k) = if leb 5 (k + 1) then tripped now else healthy (k + 1)
fails now (tripped t) = tripped now
fails now (probing k) = tripped now

-- A call that enters at a time: a tripped breaker probes once its 30 seconds are over.
abbrev pub enters : ℕ → Phase → Phase
enters now (tripped zero) = tripped 0
enters now (tripped (suc t)) = if leb (suc t + 30000) now then probing 0 else tripped (suc t)
enters now p = p

-- A success does to the phase what it does to the abstract breaker.
phase-on_success : (cb : CircuitBreaker) → IsValid cb → phase (on_success cb) ≡ succeeds (phase cb)
unfolding on_success
phase-on_success cb v = ground arith

phase-on_failure :
    (t : ℕ) (cb : CircuitBreaker) → IsValid cb → phase (on_failure t cb) ≡ fails t (phase cb)
unfolding on_failure
phase-on_failure t cb v = ground arith

module _ {X : Type 0} (now : Clock X) where
  phase-admit :
      (cb : CircuitBreaker) (x : X)
      → IsValid cb
      → phase (admit now cb x).0 ≡ enters (now x).0 (phase cb)
  unfolding admit
  phase-admit cb x v = ground arith

  module _ {A : Type 0} (fn : Action X A) where
    -- The end of a call that was made in the phase `p`.
    ends : Phase → Outcome A → X → Outcome A × (Phase × X)
    ends p (returned a) x = (returned a, (succeeds p, x))
    ends p (threw e) x = let (n, x') = now x in (threw e, (fails n p, x'))

    -- Which phases let a call through.
    passes : String → Phase → X → Outcome A × (Phase × X)
    unfolding ends
    passes name (tripped t) x =
        (threw (failure (concat "Circuit breaker OPEN for " name)), (tripped t, x))
    passes name p x = ends p (fn x).0 (fn x).1

    -- The abstract breaker: a tripped one reads the clock, if it has a time.
    pub guarded : String → Phase → X → Outcome A × (Phase × X)
    unfolding passes
    guarded name (tripped (suc t)) x =
        let (n, x') = now x in passes name (enters n (tripped (suc t))) x'
    guarded name p x = passes name p x

    -- From a valid breaker, `execute` has the outcome of the abstract three-phase breaker, leaves
    -- the rest of the world as that does, and the phase of the breaker that it leaves is the
    -- abstract one.
    pub execute-guarded :
        (cb : CircuitBreaker) (x : X)
        → IsValid cb
        → let (r, s) = execute now fn (cb, x) in
          (r, (phase s.0, s.1)) ≡ guarded cb.service_name (phase cb) x
    unfolding execute guarded
    execute-guarded cb x v = ground arith
