-- ===== src/Base/Ensures.antt =====
-- A postcondition of code that may raise, with one rule for each way to build such code.
use mathlib.Core.Path.{◌≡◌, refl, subst}
use mathlib.Core.Bool.{Bool, true, false}
use fleet_api.Base.Raise.{Result, ok, err, ◌>>=◌, require, or_raise}
use mathlib.Core.Option.{Option, none, some}
use fleet_api.Base.Tests.{if◌then◌else◌}

-- what `r` returns, if it does not raise, satisfies `P`
pub record Ensures {ℓ κ} {E : Type 0} {A : Type ℓ} (P : A → Type κ) (r : Result E A)
    : Type (ℓ ⊔ κ) where
  pub at : (a : A) → r ≡ ok a → P a

module _ {ℓ κ} {E : Type 0} {A : Type ℓ} {P : A → Type κ} where
  pub Ensures-bind {ι} :
      {B : Type ι} (m : Result E B) (f : B → Result E A)
      → ((b : B) → m ≡ ok b → Ensures P (f b))
      → Ensures P (m >>= f)
  Ensures-bind (ok b) f h = h b refl
  Ensures-bind (err e) f h = record { at = λ a p. cc }

  pub Ensures-if :
      (b : Bool) (m n : Result E A)
      → (b ≡ true → Ensures P m)
      → (b ≡ false → Ensures P n)
      → Ensures P (if b then m else n)
  Ensures-if true m n h k = h refl
  Ensures-if false m n h k = k refl

module _ {ℓ κ} {E : Type 0} {A : Type ℓ} {P : A → Type κ} where
  pub Ensures-ok : (a : A) → P a → Ensures {E = E} P (ok a)
  Ensures-ok a h = record { at = λ b p. subst P (cc) h }

-- What a test that is passed tells, and a value that is there.
pub require-eq-ok : {E : Type 0} (b : Bool) (e : E) {u : Unit {0}} → require b e ≡ ok u → b ≡ true
require-eq-ok true e h = refl
require-eq-ok false e h = cc

pub or_raise-eq-ok {ℓ} :
    {E : Type 0} {A : Type ℓ} (o : Option A) (e : E) (a : A) → or_raise o e ≡ ok a → o ≡ some a
or_raise-eq-ok none e a h = cc
or_raise-eq-ok (some b) e a h = cc
