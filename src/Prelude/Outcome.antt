-- ===== src/Prelude/Outcome.antt =====
-- A call that returns, or throws an error with its message.
use Prim.Native.String.{String}
use mathlib.Core.Path.{◌≡◌, refl}
use mathlib.Core.Logic.{◌⊎◌, inl, inr}

pub data Outcome {ℓ} (A : Type ℓ) : Type ℓ where
  done : A → Outcome A
  raised : String → Outcome A

infixl 5 ◌>>=◌
abbrev pub ◌>>=◌ {ℓ κ} : {A : Type ℓ} {B : Type κ} → Outcome A → (A → Outcome B) → Outcome B
done a >>= f = f a
raised e >>= f = raised e

pub outcome_cases {ℓ} :
    {A : Type ℓ} (o : Outcome A) → ((m : String) × (o ≡ raised m)) ⊎ ((a : A) × (o ≡ done a))
outcome_cases (done a) = inr (a, refl)
outcome_cases (raised m) = inl (m, refl)
