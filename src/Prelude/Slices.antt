-- ===== src/Prelude/Slices.antt =====
-- Cutting `xs[i:j]` out of a list, and putting the pieces together.
use Prim.Native.Nat.{ℕ, zero, suc, ◌+◌, ◌-◌, ◌≤◌, ◌<◌}
use mathlib.Core.Path.{◌≡◌, refl, sym, ap, subst, ◌∙◌}
use mathlib.Core.List.{append_assoc, List, [], ◌∷◌, ◌++◌}
use native.Mathlib.Omega.{arith}
use open_air.Prelude.Lists.{
  length, get_or, take, drop, slice, append_injective, take-append, drop-append, All, All-split,
  take-append-drop, length-take, length-drop,
}

module _ {ℓ} {A : Type ℓ} where
  take_nil : (n : ℕ) → take {A = A} n [] ≡ []
  take_nil zero = refl
  take_nil (suc n) = refl

  drop_nil : (n : ℕ) → drop {A = A} n [] ≡ []
  drop_nil zero = refl
  drop_nil (suc n) = refl

  take_from-drop : (i k : ℕ) (xs : List A) → take k (drop i xs) ++ drop (i + k) xs ≡ drop i xs
  take_from-drop zero k xs = ap (λ n. take k xs ++ drop n xs) (omega arith) ∙ take-append-drop k xs
  take_from-drop (suc i) k [] = rw (take_nil k, drop_nil (suc i + k)) refl
  take_from-drop (suc i) k (x ∷ xs) =
      let e : suc i + k ≡ suc (i + k) = omega arith in
      ap (λ n. take k (drop i xs) ++ drop n (x ∷ xs)) e ∙ take_from-drop i k xs

  pub slice-drop : (i j : ℕ) (xs : List A) → i ≤ j → slice i j xs ++ drop j xs ≡ drop i xs
  unfolding slice
  slice-drop i j xs h =
      let e : j ≡ i + (j - i) = omega arith in
      ap (λ n. take (j - i) (drop i xs) ++ drop n xs) e ∙ take_from-drop i (j - i) xs

  take_and-take : (i k : ℕ) (xs : List A) → take i xs ++ take k (drop i xs) ≡ take (i + k) xs
  take_and-take zero k xs = ap (λ n. take n xs) (omega arith)
  take_and-take (suc i) k [] = rw (take_nil k, take_nil (suc i + k)) refl
  take_and-take (suc i) k (x ∷ xs) =
      let e : suc (i + k) ≡ suc i + k = omega arith in
      ap (◌∷◌ x) (take_and-take i k xs) ∙ ap (λ n. take n (x ∷ xs)) e

  pub take-slice : (i j : ℕ) (xs : List A) → i ≤ j → take i xs ++ slice i j xs ≡ take j xs
  unfolding slice
  take-slice i j xs h = take_and-take i (j - i) xs ∙ ap (λ n. take n xs) (omega arith)

  pub slice_one :
      (i : ℕ) (xs : List A) (d : A) → i < length xs → slice i (suc i) xs ≡ get_or xs i d ∷ []
  unfolding slice
  slice_one i [] d h = absurd (omega arith)
  slice_one zero (x ∷ xs) d h = refl
  slice_one (suc i) (x ∷ xs) d h =
      ap (λ n. take n (drop i xs)) (omega arith) ∙ slice_one i xs d (omega arith)

  pub length-slice : (i j : ℕ) (xs : List A) → j ≤ length xs → length (slice i j xs) ≡ j - i
  unfolding slice
  length-slice i j xs h = omega (arith, length-take (j - i) (drop i xs), length-drop i xs)

  pub take_at : (n : ℕ) (xs ys : List A) → length xs ≡ n → take n (xs ++ ys) ≡ xs
  take_at n xs ys e = ap (λ k. take k (xs ++ ys)) (sym e) ∙ take-append xs ys

  pub drop_at : (n : ℕ) (xs ys : List A) → length xs ≡ n → drop n (xs ++ ys) ≡ ys
  drop_at n xs ys e = ap (λ k. drop k (xs ++ ys)) (sym e) ∙ drop-append xs ys

  -- The middle part of three.
  pub slice_at :
      (i j : ℕ) (xs ys zs : List A)
      → length xs ≡ i
      → i + length ys ≡ j
      → slice i j (xs ++ (ys ++ zs)) ≡ ys
  unfolding slice
  slice_at i j xs ys zs e h =
      ap (λ l. take (j - i) l) (drop_at i xs (ys ++ zs) e) ∙ take_at (j - i) ys zs (omega arith)

  pub All-slice {κ} : (P : A → Type κ) (i j : ℕ) (xs : List A) → All P xs → All P (slice i j xs)
  unfolding slice
  All-slice P i j xs h =
      let (_, back) =
        All-split P (take i xs) (drop i xs) (subst (All P) (sym (take-append-drop i xs)) h) in
      let whole = subst (All P) (sym (take-append-drop (j - i) (drop i xs))) back in
      (All-split P (take (j - i) (drop i xs)) (drop (j - i) (drop i xs)) whole).0

  -- Two neighbouring pieces.
  pub slice-slice :
      (i j k : ℕ) (xs : List A) → i ≤ j → j ≤ k → slice i j xs ++ slice j k xs ≡ slice i k xs
  slice-slice i j k xs h h' =
      let whole : take i xs ++ (slice i j xs ++ slice j k xs) ≡ take i xs ++ slice i k xs =
        sym (append_assoc (take i xs) (slice i j xs) (slice j k xs))
        ∙ ap (λ l. l ++ slice j k xs) (take-slice i j xs h)
        ∙ take-slice j k xs h'
        ∙ sym (take-slice i k xs (omega arith)) in
      (append_injective (take i xs) (slice i j xs ++ slice j k xs) (take i xs) (slice i k xs) refl
        whole).1

  pub slice_first :
      (i k : ℕ) (xs : List A) (d : A)
      → i < k
      → i < length xs
      → slice i k xs ≡ get_or xs i d ∷ slice (suc i) k xs
  slice_first i k xs d h h' =
      sym (slice-slice i (suc i) k xs (omega arith) h)
      ∙ ap (λ l. l ++ slice (suc i) k xs) (slice_one i xs d h')
