-- ===== src/Prelude/NumMaps.antt =====
-- Go maps whose keys are numbers, as association lists, in which the first entry of a key counts.
use Prim.Native.Nat.{ℕ}
use mathlib.Core.Path.{◌≡◌, refl}
use mathlib.Core.Bool.{Bool, true, false}
use mathlib.Core.Option.{Option, none, some}
use mathlib.Core.List.{List, [], ◌∷◌}
use open_air.Prelude.Tests.{◌==◌, if◌then◌else◌}

abbrev pub NumMap {ℓ} : Type ℓ → Type ℓ
NumMap A = List (ℕ × A)

module _ {ℓ} {A : Type ℓ} where
  unfoldable pub find : ℕ → NumMap A → Option A
  find k [] = none
  find k ((j, a) ∷ m) = let rest = find k m in if k == j then some a else rest

  -- `m[k] = a`
  unfoldable pub store : ℕ → A → NumMap A → NumMap A
  store k a m = (k, a) ∷ m

  -- `_, ok := m[k]`
  unfoldable pub has_key : ℕ → NumMap A → Bool
  has_key k m = elim (find k m) [ none ↦ false | some a ↦ true ]

  pub find-store :
      (k j : ℕ) (a : A) (m : NumMap A)
      → find k (store j a m) ≡ (if k == j then some a else find k m)
  unfolding find store
  find-store k j a m = refl
