-- ===== src/Prelude/Outcomes.antt =====
-- `Result` with an error of any type, and its chaining by `?`.
use mathlib.Core.Option.{Option, none, some}
use mathlib.Core.Path.{◌≡◌, refl}
use mathlib.Core.Logic.{◌⊎◌, inl, inr}

pub data Outcome {ℓ} (E A : Type ℓ) : Type ℓ where
  success : A → Outcome E A
  failure : E → Outcome E A

module _ {ℓ} {E : Type ℓ} where
  infixl 5 ◌>>=◌ ◌>>◌
  abbrev pub ◌>>=◌ : {A B : Type ℓ} → Outcome E A → (A → Outcome E B) → Outcome E B
  success a >>= f = f a
  failure e >>= f = failure e

  abbrev pub ◌>>◌ : {A B : Type ℓ} → Outcome E A → Outcome E B → Outcome E B
  m >> k = m >>= λ _. k

  -- `ok_or_else`.
  abbrev pub ok_or : {A : Type ℓ} → Option A → E → Outcome E A
  ok_or none e = failure e
  ok_or (some a) e = success a

pub Outcome-cases {ℓ} :
    {E A : Type ℓ} (o : Outcome E A) → ((a : A) × (o ≡ success a)) ⊎ ((e : E) × (o ≡ failure e))
Outcome-cases (success a) = inl (a, refl)
Outcome-cases (failure e) = inr (e, refl)
