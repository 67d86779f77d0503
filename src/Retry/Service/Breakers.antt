-- ===== src/Retry/Service/Breakers.antt =====
-- The map of circuit breakers: one for each service, each valid, and independent of the others.
use mathlib.Core.Path.{subst}
use high_throughput_notifica.Prelude.{
  ap, refl, true, if◌then◌else◌, sym, Bool-cases, inl, inr, String, ◌≡◌, ◌≢◌, [], arith, str_eq,
  eq_iff, lookup-insert, lookup,
}
use high_throughput_notifica.Prelude.Action.{Action}
use high_throughput_notifica.Retry.Breaker.{CircuitBreaker, Clock, execute, admit}
use high_throughput_notifica.Retry.Breaker.Invariant.{
  IsValid, new_breaker-IsValid, admit-IsValid, on_success-IsValid, on_failure-IsValid,
}
use high_throughput_notifica.Retry.Service.{
  CircuitBreakers, get_circuit_breaker, execute_with_circuit_breaker,
}

-- Every service's breaker is valid, also one not yet made.
pub record AllValid (bs : CircuitBreakers) : Type 0 where
  pub at : (name : String) → IsValid (get_circuit_breaker name bs)

pub AllValid-nil : AllValid []
unfolding get_circuit_breaker lookup
AllValid-nil = record { at = λ name. new_breaker-IsValid name }

same_breaker :
    (name other : String) (bs : CircuitBreakers)
    → str_eq name other ≡ true
    → get_circuit_breaker name bs ≡ get_circuit_breaker other bs
same_breaker name other bs e = ap (λ n. get_circuit_breaker n bs) ((eq_iff name other).0 e)

module _ {X A : Type 0} (now : Clock X) (fn : Action X A) where
  pub execute-IsValid :
      (cb : CircuitBreaker) (x : X) → IsValid cb → IsValid (execute now fn (cb, x)).1.0
  unfolding execute
  execute-IsValid cb x v = ground (
    arith,
    admit-IsValid now cb x v,
    on_success-IsValid (admit now cb x).0,
    on_failure-IsValid (now (fn (admit now cb x).1).1).0 (admit now cb x).0,
  )

  -- A call behind the breaker of one service leaves the breaker of every other as it was.
  pub execute_with_circuit_breaker_other :
      (name other : String) (bs : CircuitBreakers) (x : X)
      → name ≢ other
      → get_circuit_breaker other (execute_with_circuit_breaker now name fn (bs, x)).1.0
        ≡ get_circuit_breaker other bs
  unfolding get_circuit_breaker execute_with_circuit_breaker
  execute_with_circuit_breaker_other name other bs x h = ground (
    arith,
    eq_iff name other,
    lookup-insert name other (execute now fn (get_circuit_breaker name bs, x)).1.0 bs,
  )

  pub execute_with_circuit_breaker_self :
      (name : String) (bs : CircuitBreakers) (x : X)
      → get_circuit_breaker name (execute_with_circuit_breaker now name fn (bs, x)).1.0
        ≡ (execute now fn (get_circuit_breaker name bs, x)).1.0
  unfolding get_circuit_breaker execute_with_circuit_breaker
  execute_with_circuit_breaker_self name bs x = ground (
    arith,
    eq_iff name name,
    lookup-insert name name (execute now fn (get_circuit_breaker name bs, x)).1.0 bs,
  )

  execute_with_circuit_breaker-AllValid :
      (name : String) (bs : CircuitBreakers) (x : X)
      → AllValid bs
      → AllValid (execute_with_circuit_breaker now name fn (bs, x)).1.0
  execute_with_circuit_breaker-AllValid name bs x v = record {
    at = λ other. elim (Bool-cases (str_eq name other)) [
      | inl e ↦
          subst
            (λ n.
              IsValid
                (get_circuit_breaker n (execute_with_circuit_breaker now name fn (bs, x)).1.0))
            ((eq_iff name other).0 e)
            (subst IsValid (sym (execute_with_circuit_breaker_self name bs x))
              (execute-IsValid (get_circuit_breaker name bs) x (v.at name)))
      | inr e ↦
          subst IsValid
            (sym (
              execute_with_circuit_breaker_other name other bs x
                (λ same. absurd (ground (arith, eq_iff name other)))))
            (v.at other)
    ];
  }

  -- A call behind the breaker of one service returns or throws as the call behind that breaker alone
  -- does, stores the breaker that this leaves, and leaves the breaker of every other service as it
  -- was; and if the breaker of every service is valid, it still is.
  pub execute_with_circuit_breaker-execute :
      (name other : String) (bs : CircuitBreakers) (x : X)
      → AllValid bs
      → let (r, (bs', x')) = execute_with_circuit_breaker now name fn (bs, x) in
        let (alone, (cb, x₁)) = execute now fn (get_circuit_breaker name bs, x) in
        (r ≡ alone)
        × (x' ≡ x₁)
        × (get_circuit_breaker other bs'
            ≡ (if str_eq name other then cb else get_circuit_breaker other bs))
        × AllValid bs'
  execute_with_circuit_breaker-execute name other bs x v = (
    unfold execute_with_circuit_breaker in refl,
    unfold execute_with_circuit_breaker in refl,
    ground (
      arith,
      eq_iff name other,
      execute_with_circuit_breaker_self name bs x,
      execute_with_circuit_breaker_other name other bs x,
      same_breaker name other (execute_with_circuit_breaker now name fn (bs, x)).1.0,
    ),
    execute_with_circuit_breaker-AllValid name bs x v,
  )
