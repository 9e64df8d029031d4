-- ===== src/Base/Raising.antt =====
-- The outcome of code that may raise an exception: a value, or the exception. Loops that run on
-- fuel have the third outcome, which no program run has.
pub data Outcome {ℓ} (E : Type ℓ) (A : Type ℓ) : Type ℓ where
  ok : A → Outcome E A
  raised : E → Outcome E A
  out_of_fuel : Outcome E A

module _ {ℓ} {E A B : Type ℓ} where
  infixl 5 ◌>>=◌
  abbrev pub ◌>>=◌ : Outcome E A → (A → Outcome E B) → Outcome E B
  ok a >>= f = f a
  raised e >>= f = raised e
  out_of_fuel >>= f = out_of_fuel
