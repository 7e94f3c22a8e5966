-- ===== src/Base/Outcome.antt =====
-- The pair `(value, error)` of a fallible Go call, with the error as its text.
use Prim.Native.String.{String}
use mathlib.Core.Path.{◌≡◌, refl}
use mathlib.Core.Logic.{◌⊎◌, inl, inr}
use wifigo.Base.Texts.{concat}

pub data Outcome {ℓ} (A : Type ℓ) : Type ℓ where
  ok : A → Outcome A
  err : String → Outcome A

-- `fmt.Errorf("prefix: %w", err)`
abbrev pub wrap {ℓ} : {A : Type ℓ} → String → Outcome A → Outcome A
wrap prefix (ok a) = ok a
wrap prefix (err why) = err (concat prefix why)

pub Outcome-cases {ℓ} :
    {A : Type ℓ} (o : Outcome A) → ((a : A) × (o ≡ ok a)) ⊎ ((why : String) × (o ≡ err why))
Outcome-cases (ok a) = inl (a, refl)
Outcome-cases (err why) = inr (why, refl)

pub wrap-ok {ℓ} :
    {A : Type ℓ} (prefix : String) (o : Outcome A) {a : A} → wrap prefix o ≡ ok a → o ≡ ok a
wrap-ok prefix (ok b) h = h
wrap-ok prefix (err why) h = absurd (cc h)
