-- ===== src/Prelude/Status.antt =====
-- How a C call ends: with a value, with a failed `assert` (the process aborts), or in behaviour
-- that C leaves undefined.
use mathlib.Core.Path.{◌≡◌, refl}
use mathlib.Core.Logic.{◌⊎◌, inl, inr}

pub data Outcome {ℓ} (A : Type ℓ) : Type ℓ where
  done : A → Outcome A
  aborted undefined : Outcome A

infixl 5 ◌>>=◌
abbrev pub ◌>>=◌ {ℓ κ} : {A : Type ℓ} {B : Type κ} → Outcome A → (A → Outcome B) → Outcome B
done a >>= f = f a
aborted >>= f = aborted
undefined >>= f = undefined

-- To split on a call and keep the equation.
pub Outcome-cases {ℓ} :
    {A : Type ℓ} (m : Outcome A) → ((a : A) × (m ≡ done a)) ⊎ ((m ≡ aborted) ⊎ (m ≡ undefined))
Outcome-cases (done a) = inl (a, refl)
Outcome-cases aborted = inr (inl refl)
Outcome-cases undefined = inr (inr refl)
