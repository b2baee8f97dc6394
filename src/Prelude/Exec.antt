-- ===== src/Prelude/Exec.antt =====
-- Python exceptions, and methods that mutate an object and may raise. What was written before a
-- raise stays written, so the state comes back beside the exception too.
use Prim.Native.String.{String}
use mathlib.Core.Path.{◌≡◌, refl}
use mathlib.Core.Logic.{◌⊎◌, inl, inr}
use native.Mathlib.Omega.{arith}

-- The exceptions that the modelled code raises or handles, by their Python class.
pub data Error : Type 0 where
  -- FileNotFoundError, ResourceNotAllowed, StrictCheckingFailure, UnreadableResource
  file_not_found not_allowed strict_failure unreadable : String → Error
  -- KeyError, FactoryNotFoundError, NoRegisteredFactoryError
  key_error factory_not_found no_registered_factory : String → Error
  -- ServiceNotAvailable, UnreachableDestination, DismissedTaskError
  service_not_available unreachable_destination dismissed_task : String → Error
  value_error runtime_error assertion_error other_error : String → Error
  zero_division : Error

pub data Result {ℓ} (A : Type ℓ) : Type ℓ where
  ok : A → Result A
  raise : Error → Result A

abbrev pub then_ok {ℓ κ} : {A : Type ℓ} {B : Type κ} → Result A → (A → Result B) → Result B
then_ok (ok a) f = f a
then_ok (raise e) f = raise e

pub then_ok_inv :
    {A B : Type 0} (r : Result A) (f : A → Result B) {b : B}
    → then_ok r f ≡ ok b
    → (a : A) × (r ≡ ok a) × (f a ≡ ok b)
then_ok_inv (ok a) f h = (a, refl, h)
then_ok_inv (raise e) f h = absurd (ground arith)

pub Result-cases {ℓ} :
    {A : Type ℓ} (r : Result A) → ((a : A) × (r ≡ ok a)) ⊎ ((e : Error) × (r ≡ raise e))
Result-cases (ok a) = inl (a, refl)
Result-cases (raise e) = inr (e, refl)

abbrev pub Exec : Type 0 → Type 0 → Type 0
Exec S A = S → Result A × S

module _ {S A : Type 0} where
  abbrev pub pure : A → Exec S A
  pure a s = (ok a, s)

  abbrev pub throw : Error → Exec S A
  throw e s = (raise e, s)

  abbrev pub lift : Result A → Exec S A
  lift r s = (r, s)

module _ {S A B : Type 0} where
  abbrev pub continue : Result A → (A → Exec S B) → Exec S B
  continue (ok a) f s = f a s
  continue (raise e) f s = (raise e, s)

  infixl 5 ◌>>=◌ ◌>>◌
  abbrev pub ◌>>=◌ : Exec S A → (A → Exec S B) → Exec S B
  ◌>>=◌ m f s = let (r, s') = m s in continue r f s'

  abbrev pub ◌>>◌ : Exec S A → Exec S B → Exec S B
  m >> n = m >>= λ _. n

  continue_ok :
      (r : Result A) (f : A → Exec S B) (s : S) {b : B} {s'' : S}
      → continue r f s ≡ (ok b, s'')
      → (a : A) × (r ≡ ok a) × (f a s ≡ (ok b, s''))
  continue_ok (ok a) f s h = (a, refl, h)
  continue_ok (raise e) f s h = absurd (ground arith)

  -- A sequence that returns: its first action returned, and its second from there.
  pub >>=-eq-ok :
      (m : Exec S A) (f : A → Exec S B) (s : S) {b : B} {s'' : S}
      → (m >>= f) s ≡ (ok b, s'')
      → (a : A) × ((m s).0 ≡ ok a) × (f a (m s).1 ≡ (ok b, s''))
  >>=-eq-ok m f s h = continue_ok (m s).0 f (m s).1 h

  continue-pure_state : (r : Result A) (g : A → B) (s : S) → (continue r (λ a. pure (g a)) s).1 ≡ s
  continue-pure_state (ok a) g s = refl
  continue-pure_state (raise e) g s = refl

  -- To compute a value at the end changes no state.
  pub >>=-pure_state : (m : Exec S A) (g : A → B) (s : S) → ((m >>= λ a. pure (g a)) s).1 ≡ (m s).1
  >>=-pure_state m g s = continue-pure_state (m s).0 g (m s).1
