-- ===== src/Base/Effects.antt =====
-- The result of a call that may throw, and the values that JavaScript may leave out.
use mathlib.Core.Path.{◌≡◌, refl}
use mathlib.Core.Logic.{◌⊎◌, inl, inr}
use owne_x.Base.Text.{Text}

-- `T | null | undefined`
pub data Nullish {ℓ} (A : Type ℓ) : Type ℓ where
  undefined null : Nullish A
  value : A → Nullish A

-- `throw` carries what was thrown.
pub data Outcome {ℓ κ} (E : Type κ) (A : Type ℓ) : Type (ℓ ⊔ κ) where
  ok : A → Outcome E A
  thrown : E → Outcome E A

-- A call that may throw, with the message of what it threw.
abbrev pub Read : Type 0 → Type 0
Read A = Outcome Text A

pub Outcome-cases {ℓ κ} :
    {E : Type κ} {A : Type ℓ} (m : Outcome E A)
    → ((a : A) × (m ≡ ok a)) ⊎ ((e : E) × (m ≡ thrown e))
Outcome-cases (ok a) = inl (a, refl)
Outcome-cases (thrown e) = inr (e, refl)

module _ {ℓ κ μ} {E : Type κ} {A : Type ℓ} {B : Type μ} where
  infixl 5 ◌>>=◌
  -- `await m`, and then the rest.
  abbrev pub ◌>>=◌ : Outcome E A → (A → Outcome E B) → Outcome E B
  thrown reason >>= rest = thrown reason
  ok a >>= rest = rest a

  -- What an awaited call gave, where nothing was thrown.
  pub >>=-ok :
      (m : Outcome E A) (rest : A → Outcome E B) {result : B}
      → (m >>= rest) ≡ ok result
      → (a : A) × (m ≡ ok a) × (rest a ≡ ok result)
  >>=-ok (thrown reason) rest h = cc
  >>=-ok (ok a) rest h = (a, refl, h)
