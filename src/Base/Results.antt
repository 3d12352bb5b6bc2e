-- ===== src/Base/Results.antt =====
-- Go's `(value, error)` results. An error is its message, since the source compares messages.
use mathlib.Core.Path.{◌≡◌, refl}
use mathlib.Core.Logic.{◌⊎◌, inl, inr}
use image_validating_webhook.Base.Strings.{Text}

pub data Result {ℓ} (A : Type ℓ) : Type ℓ where
  ok : A → Result A
  err : Text → Result A

infixl 5 ◌>>=◌
abbrev pub ◌>>=◌ {ℓ κ} : {A : Type ℓ} {B : Type κ} → Result A → (A → Result B) → Result B
ok a >>= f = f a
err e >>= f = err e

pub Result-cases {ℓ} :
    {A : Type ℓ} (r : Result A) → ((a : A) × (r ≡ ok a)) ⊎ ((e : Text) × (r ≡ err e))
Result-cases (ok a) = inl (a, refl)
Result-cases (err e) = inr (e, refl)

-- The end of a call that can also panic.
pub data Outcome {ℓ} (A : Type ℓ) : Type ℓ where
  done : A → Outcome A
  fails : Text → Outcome A
  panics : Outcome A

abbrev pub outcome_of {ℓ} : {A : Type ℓ} → Result A → Outcome A
outcome_of (ok a) = done a
outcome_of (err e) = fails e

infixl 5 ◌>=>◌
abbrev pub ◌>=>◌ {ℓ κ} : {A : Type ℓ} {B : Type κ} → Outcome A → (A → Outcome B) → Outcome B
done a >=> f = f a
fails e >=> f = fails e
panics >=> f = panics

pub Outcome-cases {ℓ} :
    {A : Type ℓ} (o : Outcome A)
    → ((a : A) × (o ≡ done a)) ⊎ ((e : Text) × (o ≡ fails e)) ⊎ (o ≡ panics)
Outcome-cases (done a) = inl (a, refl)
Outcome-cases (fails e) = inr (inl (e, refl))
Outcome-cases panics = inr (inr refl)

-- The call returns a value of which `P` holds.
abbrev pub Returns {ℓ} : {A : Type ℓ} → Result A → (A → Type 0) → Type 0
Returns (ok a) P = P a
Returns (err e) P = ⊥

abbrev pub Finishes {ℓ} : {A : Type ℓ} → Outcome A → (A → Type 0) → Type 0
Finishes (done a) P = P a
Finishes (fails e) P = ⊥
Finishes panics P = ⊥
