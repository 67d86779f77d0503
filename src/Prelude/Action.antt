-- ===== src/Prelude/Action.antt =====
-- Asynchronous methods as actions on a state: an `await` runs an action, a rejected promise or a
-- `throw` is an outcome, and what was written before a throw stays written.
use Prim.Native.Nat.{ℕ}
use high_throughput_notifica.Prelude.Int.{ℤ}
use Prim.Native.String.{String}
use mathlib.Core.Path.{◌≡◌, refl}
use mathlib.Core.Logic.{◌⊎◌, inl, inr}
use native.Mathlib.Omega.{arith}

-- What a program throws. `failure` is an `Error` with its message, `http` a Nest `HttpException`
-- with its status and message, `limited` one of status 429
-- with its message and `retryAfter`, and `non_error` a thrown value that is no `Error`.
pub data Error : Type 0 where
  failure : String → Error
  http : ℕ → String → Error
  non_error : Error
  limited : String → ℤ → Error

pub data Outcome {ℓ} (A : Type ℓ) : Type ℓ where
  returned : A → Outcome A
  threw : Error → Outcome A

abbrev pub Action {ℓ} : Type 0 → Type ℓ → Type ℓ
Action S A = S → Outcome A × S

module _ {S : Type 0} where
  abbrev pub pure {ℓ} : {A : Type ℓ} → A → Action S A
  pure a s = (returned a, s)

  abbrev pub throw {ℓ} : {A : Type ℓ} → Error → Action S A
  throw e s = (threw e, s)

  abbrev pub gets {ℓ} : {A : Type ℓ} → (S → A) → Action S A
  gets f s = (returned (f s), s)

  abbrev pub modify : (S → S) → Action S (Unit {0})
  modify f s = (returned tt, f s)

  -- The rest of a block, after the outcome of its first action.
  abbrev pub proceed {ℓ κ} :
      {A : Type ℓ} {B : Type κ} → (A → Action S B) → Outcome A → S → Outcome B × S
  proceed f (returned a) s = f a s
  proceed f (threw e) s = (threw e, s)

  infixl 5 ◌>>=◌ ◌>>◌
  abbrev pub ◌>>=◌ {ℓ κ} : {A : Type ℓ} {B : Type κ} → Action S A → (A → Action S B) → Action S B
  ◌>>=◌ m f s = proceed f (m s).0 (m s).1

  abbrev pub ◌>>◌ {ℓ κ} : {A : Type ℓ} {B : Type κ} → Action S A → Action S B → Action S B
  m >> n = m >>= λ _. n

  abbrev pub recover {ℓ} : {A : Type ℓ} → (Error → Action S A) → Outcome A → S → Outcome A × S
  recover h (returned a) s = (returned a, s)
  recover h (threw e) s = h e s

  -- `try { m } catch (e) { h e }`
  abbrev pub try_catch {ℓ} : {A : Type ℓ} → Action S A → (Error → Action S A) → Action S A
  try_catch m h s = recover h (m s).0 (m s).1

  -- `try { m } finally { f }`, for an `f` that only updates fields
  abbrev pub finally {ℓ} : {A : Type ℓ} → Action S A → (S → S) → Action S A
  finally m f s = let (r, s') = m s in (r, f s')

pub Outcome-cases {ℓ} :
    {A : Type ℓ} (r : Outcome A) → ((a : A) × (r ≡ returned a)) ⊎ ((e : Error) × (r ≡ threw e))
Outcome-cases (returned a) = inl (a, refl)
Outcome-cases (threw e) = inr (e, refl)

-- A block that returned ran its first action to the end.
pub proceed-returned {ℓ κ} :
    {S : Type 0} {A : Type ℓ} {B : Type κ} (f : A → Action S B) (r : Outcome A) (s s' : S) {b : B}
    → proceed f r s ≡ (returned b, s')
    → (a : A) × (r ≡ returned a) × (f a s ≡ (returned b, s'))
proceed-returned f (returned a) s s' h = (a, refl, h)
proceed-returned f (threw e) s s' h = cc

-- A `catch` that cleans up and throws again returns only what the `try` returned.
pub recover-returned {ℓ} :
    {S : Type 0} {A : Type ℓ} (cleanup : Action S (Unit {0})) (r : Outcome A) (s s' : S) {b : A}
    → recover (λ e. cleanup >> throw e) r s ≡ (returned b, s')
    → (r ≡ returned b) × (s ≡ s')
recover-returned cleanup (returned a) s s' h = ground arith
recover-returned cleanup (threw e) s s' h = ground arith
