-- ===== src/Prelude/Results.antt =====
-- Go's `(value, error)` pair: a value, or an error of the component's own.
use mathlib.Core.Path.{◌≡◌, refl}
use mathlib.Core.Logic.{◌⊎◌, inl, inr}
use mathlib.Core.Bool.{Bool, true, false}
use native.Mathlib.Omega.{arith}
use open_air.Prelude.Tests.{if◌then◌else◌}

pub data Result {ℓ κ} (E : Type ℓ) (A : Type κ) : Type (ℓ ⊔ κ) where
  ok : A → Result E A
  err : E → Result E A

module _ {ℓ κ} {E : Type ℓ} {A : Type κ} where
  -- `if err != nil { return …, err }`
  abbrev pub and_then {μ} : {B : Type μ} → Result E A → (A → Result E B) → Result E B
  and_then r next = elim r [ err e ↦ err e | ok a ↦ next a ]

  pub Result-cases : (r : Result E A) → ((a : A) × (r ≡ ok a)) ⊎ ((e : E) × (r ≡ err e))
  Result-cases (err e) = inr (e, refl)
  Result-cases (ok a) = inl (a, refl)

  -- What came back ok went on from a result that was ok.
  pub and_then_ok {μ} :
      {B : Type μ} (r : Result E A) (next : A → Result E B) {y : B}
      → and_then r next ≡ ok y
      → (a : A) × (r ≡ ok a) × (next a ≡ ok y)
  and_then_ok (err e) next p = absurd (grind arith)
  and_then_ok (ok a) next p = (a, refl, p)

  -- A guarded result that came back ok.
  pub guarded_ok :
      (b : Bool) (e : E) (x : Result E A) {y : A}
      → (if b then err e else x) ≡ ok y
      → (b ≡ false) × (x ≡ ok y)
  guarded_ok true e x p = absurd (grind arith)
  guarded_ok false e x p = (refl, p)

  pub ok_injective : {x y : A} → ◌≡◌ {A = Result E A} (ok x) (ok y) → x ≡ y
  ok_injective p = cc
