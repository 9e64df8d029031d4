-- ===== src/Base/Postconditions.antt =====
-- Postconditions of runs: a run settles when it raises an exception or returns a value with the
-- property. A run that ends for want of fuel does not settle.
use mathlib.Core.Path.{◌≡◌, refl, subst}
use mathlib.Core.Logic.{◌≢◌}
use mathlib.Core.Bool.{Bool, true, false}
use new_cl_lang.Base.Tests.{if◌then◌else◌}
use new_cl_lang.Base.Raising.{Outcome, ok, raised, out_of_fuel, ◌>>=◌}

pub data Settles {ℓ κ} {E A : Type ℓ} (P : A → Type κ) : Outcome E A → Type (ℓ ⊔ κ) where
  returns : {a : A} → P a → Settles P (ok a)
  raises : {e : E} → Settles P (raised e)

module _ {ℓ κ} {E A : Type ℓ} {P : A → Type κ} where
  pub Settles-ok : {r : Outcome E A} {a : A} → Settles P r → r ≡ ok a → P a
  Settles-ok (returns h) e = subst P (cc) h
  Settles-ok raises e = cc

  pub Settles-ne-out_of_fuel : {r : Outcome E A} → Settles P r → r ≢ out_of_fuel
  Settles-ne-out_of_fuel (returns h) = cc
  Settles-ne-out_of_fuel raises = cc

  pub Settles-if :
      (b : Bool) {x y : Outcome E A}
      → (b ≡ true → Settles P x)
      → (b ≡ false → Settles P y)
      → Settles P (if b then x else y)
  Settles-if true hx hy = hx refl
  Settles-if false hx hy = hy refl

  pub Settles-weaken {κ'} :
      {Q : A → Type κ'} {r : Outcome E A} → Settles P r → ((a : A) → P a → Q a) → Settles Q r
  Settles-weaken (returns {a} h) k = returns (k a h)
  Settles-weaken raises k = raises

module _ {ℓ κ κ'} {E A : Type ℓ} {P : A → Type κ} {Q : A → Type κ'} where
  pub Settles-both : {r : Outcome E A} → Settles P r → Settles Q r → Settles (λ a. P a × Q a) r
  Settles-both (returns p) h = returns (p, Settles-ok h refl)
  Settles-both raises h = raises

-- A postcondition under a hypothesis, of a run that settles in any case.
pub Settles-given {ℓ κ κ'} :
    {E A : Type ℓ} {H : Type κ'} {P : H → A → Type κ} {r : Outcome E A}
    → Settles (λ _. Unit {0}) r
    → ((h : H) → Settles (P h) r)
    → Settles (λ a. (h : H) → P h a) r
Settles-given (returns _) k = returns (λ h. Settles-ok (k h) refl)
Settles-given raises k = raises

module _ {ℓ κ κ'} {E A B : Type ℓ} {P : A → Type κ} {Q : B → Type κ'} where
  pub Settles-bind :
      {r : Outcome E A} {f : A → Outcome E B}
      → Settles P r
      → ((a : A) → P a → Settles Q (f a))
      → Settles Q (r >>= f)
  Settles-bind (returns {a} h) k = k a h
  Settles-bind raises k = raises
