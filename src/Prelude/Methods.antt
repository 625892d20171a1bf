-- ===== src/Prelude/Methods.antt =====
-- Methods that mutate a state and may raise. What was written before a raise stays written, so the
-- state comes back beside the exception too.
use mathlib.Core.Bool.{Bool, true, false}

pub data Outcome {ℓ κ} (E : Type κ) (A : Type ℓ) : Type (ℓ ⊔ κ) where
  returned : A → Outcome E A
  raised : E → Outcome E A

abbrev pub Method : Type 0 → Type 0 → Type 0 → Type 0
Method S E A = S → Outcome E A × S

module _ {S E : Type 0} where
  abbrev pub pure : {A : Type 0} → A → Method S E A
  pure a s = (returned a, s)

  abbrev pub raise : {A : Type 0} → E → Method S E A
  raise e s = (raised e, s)

  abbrev pub gets : {A : Type 0} → (S → A) → Method S E A
  gets f s = (returned (f s), s)

  abbrev pub modify : (S → S) → Method S E (Unit {0})
  modify f s = (returned tt, f s)

  -- `if test: raise e`
  abbrev pub raise_if : Bool → E → Method S E (Unit {0})
  raise_if true e s = (raised e, s)
  raise_if false e s = (returned tt, s)

  abbrev pub continue : {A B : Type 0} → Outcome E A → (A → Method S E B) → Method S E B
  continue (returned a) f s = f a s
  continue (raised e) f s = (raised e, s)

  infixl 5 ◌>>=◌ ◌>>◌
  abbrev pub ◌>>=◌ : {A B : Type 0} → Method S E A → (A → Method S E B) → Method S E B
  ◌>>=◌ m f s = let (r, s') = m s in continue r f s'

  abbrev pub ◌>>◌ : {A B : Type 0} → Method S E A → Method S E B → Method S E B
  m >> k = m >>= λ _. k
