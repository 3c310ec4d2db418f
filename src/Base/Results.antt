-- ===== src/Base/Results.antt =====
-- A function that may raise returns a `Result`; its error type is the model's own for each part.
use mathlib.Core.Path.{◌≡◌, refl}
use mathlib.Core.Bool.{Bool, true, false}
use mathlib.Core.Logic.{◌⊎◌, inl, inr}

pub data Result {ℓ κ} (E : Type ℓ) (A : Type κ) : Type (ℓ ⊔ κ) where
  err : E → Result E A
  ok : A → Result E A

-- `if test: raise error`
abbrev pub raise_if {ℓ} : {E : Type ℓ} → Bool → E → Result E (Unit {0})
raise_if false error = ok tt
raise_if true error = err error

pub Result-cases {ℓ κ} :
    {E : Type ℓ} {A : Type κ} (r : Result E A) → ((a : A) × (r ≡ ok a)) ⊎ ((e : E) × (r ≡ err e))
Result-cases (ok a) = inl (a, refl)
Result-cases (err e) = inr (e, refl)

module _ {ℓ κ} {E : Type ℓ} {A : Type κ} where
  abbrev pub is_ok : Result E A → Bool
  is_ok (err _) = false
  is_ok (ok _) = true

  pub ok-injective : {a b : A} → ◌≡◌ {A = Result E A} (ok a) (ok b) → a ≡ b
  ok-injective h = cc

module _ {ℓ κ υ} {E : Type ℓ} {A : Type κ} {B : Type υ} where
  infixl 5 ◌>>=◌ ◌>>◌
  -- what follows a call that may raise
  abbrev pub ◌>>=◌ : Result E A → (A → Result E B) → Result E B
  call >>= rest = elim call [ err error ↦ err error | ok value ↦ rest value ]

  abbrev pub ◌>>◌ : Result E A → Result E B → Result E B
  call >> rest = call >>= λ _. rest
