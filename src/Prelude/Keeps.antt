-- ===== src/Prelude/Keeps.antt =====
-- Invariants of actions: one rule for each way to build an action.
use mathlib.Core.Path.{◌≡◌, refl}
use mathlib.Core.Bool.{Bool, true, false}
use qjazz.Prelude.Tests.{if◌then◌else◌}
use qjazz.Prelude.Exec.{Error, Result, ok, raise, Exec, pure, throw, lift, continue, ◌>>=◌}

-- Whether it returns or raises, the action leads from states with `P` to states with `P`.
pub record Keeps {S A : Type 0} (P : S → Type 0) (m : Exec S A) : Type 0 where
  pub at : (s : S) → P s → P (m s).1

module _ {S A : Type 0} {P : S → Type 0} where
  pub Keeps-pure : (a : A) → Keeps P (pure {S = S} a)
  Keeps-pure a = record { at = λ s h. h }

  pub Keeps-throw : (e : Error) → Keeps P (throw {S = S} {A = A} e)
  Keeps-throw e = record { at = λ s h. h }

  pub Keeps-if : (b : Bool) (m n : Exec S A) → Keeps P m → Keeps P n → Keeps P (if b then m else n)
  Keeps-if true m n km kn = km
  Keeps-if false m n km kn = kn

module _ {S A B : Type 0} {P : S → Type 0} where
  Keeps-continue :
      (r : Result A) (f : A → Exec S B) (s : S)
      → P s
      → ((a : A) → r ≡ ok a → Keeps P (f a))
      → P (continue r f s).1
  Keeps-continue (ok a) f s h k = (k a refl).at s h
  Keeps-continue (raise e) f s h k = h

  pub Keeps-bind :
      (m : Exec S A) (f : A → Exec S B) → Keeps P m → ((a : A) → Keeps P (f a)) → Keeps P (m >>= f)
  Keeps-bind m f km kf = record {
    at = λ s h. Keeps-continue (m s).0 f (m s).1 (km.at s h) (λ a e. kf a);
  }

  pub Keeps-bind-lift :
      (r : Result A) (f : A → Exec S B)
      → ((a : A) → r ≡ ok a → Keeps P (f a))
      → Keeps P (lift r >>= f)
  Keeps-bind-lift r f k = record { at = λ s h. Keeps-continue r f s h k }
