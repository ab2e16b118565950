-- ===== src/Prelude/Raises.antt =====
-- Code that raises: the value that it returns, or the exception.
use mathlib.Core.Bool.{Bool, true, false}
use mathlib.Core.Path.{◌≡◌, refl, ap}
use mathlib.Core.Option.{Option, none, some}

pub data Result {ℓ κ} (E : Type ℓ) (A : Type κ) : Type (ℓ ⊔ κ) where
  ok : A → Result E A
  err : E → Result E A

module _ {ε ℓ} {E : Type ε} {A : Type ℓ} where
  infixl 5 ◌>>=◌
  -- an exception ends the block
  abbrev pub ◌>>=◌ {κ} : {B : Type κ} → Result E A → (A → Result E B) → Result E B
  err x >>= rest = err x
  ok value >>= rest = rest value

  -- `if not condition: raise x`, and then the rest
  abbrev pub require : Bool → E → Result E A → Result E A
  require false x rest = err x
  require true x rest = rest

  -- `if value is None: raise x`
  abbrev pub found : Option A → E → Result E A
  found (some value) x = ok value
  found none x = err x

module _ {ε ℓ} {E : Type ε} {A : Type ℓ} where
  -- Code that returned got past each of its steps.
  pub required :
      (condition : Bool) (x : E) (rest : Result E A) {value : A}
      → require condition x rest ≡ ok value
      → (condition ≡ true) × (rest ≡ ok value)
  required false x rest h = absurd (cc h)
  required true x rest h = (refl, h)

  pub returned {κ} :
      {B : Type κ} (m : Result E A) (rest : A → Result E B) {value : B}
      → (m >>= rest) ≡ ok value
      → (a : A) × (m ≡ ok a) × (rest a ≡ ok value)
  returned (err x) rest h = absurd (cc h)
  returned (ok a) rest h = (a, refl, h)

  value_or : A → Result E A → A
  value_or d (ok a) = a
  value_or d (err x) = d

  pub ok-injective : {a b : A} → ◌≡◌ {A = Result E A} (ok a) (ok b) → a ≡ b
  unfolding value_or
  ok-injective {a} {b} h = ap (value_or a) h

  pub found-ok : (value : Option A) (x : E) {a : A} → found value x ≡ ok a → value ≡ some a
  found-ok none x h = absurd (cc h)
  found-ok (some value) x h = ap (λ (b : A). some b) (ok-injective h)
