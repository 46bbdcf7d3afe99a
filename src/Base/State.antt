-- ===== src/Base/State.antt =====
-- Methods that change an object and may throw: what was written before a throw stays written, so
-- the state comes back beside the error too.
use mathlib.Core.Path.{◌≡◌, ap}
use mathlib.Core.Bool.{Bool, true, false}
use unified_oramhub.Base.Results.{Error, Result, ok, err}

abbrev pub State {ℓ} : Type ℓ → Type ℓ → Type ℓ
State S A = S → Result A × S

module _ {ℓ} {S A : Type ℓ} where
  abbrev pub pure : A → State S A
  pure a s = (ok a, s)

  abbrev pub lift : Result A → State S A
  lift r s = (r, s)

  abbrev pub gets : (S → A) → State S A
  gets f s = (ok (f s), s)

module _ {ℓ} {S A B : Type ℓ} where
  abbrev pub continue : Result A → S → (A → State S B) → Result B × S
  continue (ok a) s f = f a s
  continue (err e) s f = (err e, s)

  infixl 5 ◌>>=◌
  abbrev pub ◌>>=◌ : State S A → (A → State S B) → State S B
  ◌>>=◌ m f s = continue (m s).0 (m s).1 f

  infixl 5 ◌>>◌
  abbrev pub ◌>>◌ : State S A → State S B → State S B
  m >> n = m >>= λ _. n

module _ {S : Type 0} where
  abbrev pub modify : (S → S) → State S Unit
  modify f s = (ok tt, f s)

  abbrev pub check : Bool → Error → State S Unit
  check true e s = (ok tt, s)
  check false e s = (err e, s)

-- After a method that returned, the next one runs in the state that it left.
pub >>=-eq_of_ok {ℓ} :
    {S A B : Type ℓ} (m : State S A) (f : A → State S B) (s : S) (a : A) (s' : S)
    → m s ≡ (ok a, s')
    → (m >>= f) s ≡ f a s'
>>=-eq_of_ok m f s a s' e = ap (λ r. continue r.0 r.1 f) e
