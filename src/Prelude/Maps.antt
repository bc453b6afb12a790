-- ===== src/Prelude/Maps.antt =====
-- Go maps with string keys, as association lists: a key stands at most once where only these
-- operations built the list, and a lookup takes the first entry.
use mathlib.Core.Path.{◌≡◌, refl, sym, subst, ◌∙◌}
use mathlib.Core.Logic.{◌≢◌, inl, inr}
use mathlib.Core.Bool.{false}
use mathlib.Core.Option.{Option, none, some}
use mathlib.Core.List.{List, [], ◌∷◌}
use native.Mathlib.Omega.{arith}
use open_air.Prelude.Tests.{if◌then◌else◌, Bool-cases}
use open_air.Prelude.ByteSlices.{Bytes, bytes_eq, bytes_eq_refl, bytes_eq→eq}

abbrev pub Map {ℓ} : Type ℓ → Type ℓ
Map A = List (Bytes × A)

module _ {ℓ} {A : Type ℓ} where
  unfoldable pub lookup : Bytes → Map A → Option A
  lookup k [] = none
  lookup k ((k', a) ∷ m) = let rest = lookup k m in if bytes_eq k k' then some a else rest

  unfoldable pub remove : Bytes → Map A → Map A
  remove k [] = []
  remove k ((k', a) ∷ m) = let rest = remove k m in if bytes_eq k k' then rest else (k', a) ∷ rest

  unfoldable pub insert : Bytes → A → Map A → Map A
  unfolding remove
  insert k a m = (k, a) ∷ remove k m

pub bytes_ne : (k k' : Bytes) → k ≢ k' → bytes_eq k k' ≡ false
bytes_ne k k' ne = elim (Bool-cases (bytes_eq k k')) [
  | inl e ↦ absurd (ne (bytes_eq→eq k k' e))
  | inr e ↦ e
]

ne_of : (k k' : Bytes) → bytes_eq k k' ≡ false → k ≢ k'
ne_of k k' e q =
    let t : bytes_eq k' k' ≡ false = subst (λ x. bytes_eq x k' ≡ false) q e in
    grind (arith, bytes_eq_refl k')

module _ {ℓ} {A : Type ℓ} where
  pub lookup-remove_self : (k : Bytes) (m : Map A) → lookup k (remove k m) ≡ none
  unfolding lookup remove
  lookup-remove_self k [] = refl
  lookup-remove_self k ((k', a) ∷ m) = ground (arith, lookup-remove_self k m)

  pub lookup-remove_ne : (k k' : Bytes) (m : Map A) → k ≢ k' → lookup k (remove k' m) ≡ lookup k m
  unfolding lookup remove
  lookup-remove_ne k k' [] ne = refl
  lookup-remove_ne k k' ((j, a) ∷ m) ne = elim (Bool-cases (bytes_eq k' j)) [
    | inl e ↦
        let e' : bytes_eq k j ≡ false = rw (← bytes_eq→eq k' j e) (bytes_ne k k' ne) in
        rw (e, e') (lookup-remove_ne k k' m ne)
    | inr e ↦ rw (e, lookup-remove_ne k k' m ne) refl
  ]

  pub lookup-insert_self : (k : Bytes) (a : A) (m : Map A) → lookup k (insert k a m) ≡ some a
  unfolding lookup insert
  lookup-insert_self k a m = rw (bytes_eq_refl k) refl

  pub lookup-insert_ne :
      (k k' : Bytes) (a : A) (m : Map A) → k ≢ k' → lookup k (insert k' a m) ≡ lookup k m
  unfolding lookup insert
  lookup-insert_ne k k' a m ne = rw (bytes_ne k k' ne) (lookup-remove_ne k k' m ne)

  pub lookup-insert :
      (k k' : Bytes) (a : A) (m : Map A)
      → lookup k (insert k' a m) ≡ (if bytes_eq k k' then some a else lookup k m)
  lookup-insert k k' a m = elim (Bool-cases (bytes_eq k k')) [
    | inl e ↦ rw e (
        subst (λ x. lookup x (insert k' a m) ≡ some a) (sym (bytes_eq→eq k k' e))
          (lookup-insert_self k' a m))
    | inr e ↦ rw e (lookup-insert_ne k k' a m (ne_of k k' e))
  ]

  pub lookup-remove :
      (k k' : Bytes) (m : Map A)
      → lookup k (remove k' m) ≡ (if bytes_eq k k' then none else lookup k m)
  lookup-remove k k' m = elim (Bool-cases (bytes_eq k k')) [
    | inl e ↦ rw e (
        subst (λ x. lookup x (remove k' m) ≡ none) (sym (bytes_eq→eq k k' e))
          (lookup-remove_self k' m))
    | inr e ↦ rw e (lookup-remove_ne k k' m (ne_of k k' e))
  ]

  -- Taking an entry out and putting it back, and the other way round.
  pub lookup-reinsert :
      (k k' : Bytes) (a : A) (m m' : Map A)
      → lookup k' m ≡ some a
      → lookup k m' ≡ (if bytes_eq k k' then lookup k m' else lookup k m)
      → lookup k (insert k' a m') ≡ lookup k m
  lookup-reinsert k k' a m m' e o = elim (Bool-cases (bytes_eq k k')) [
    | inl q ↦
        lookup-insert k k' a m'
        ∙ rw q (sym (subst (λ x. lookup x m ≡ some a) (sym (bytes_eq→eq k k' q)) e))
    | inr q ↦ lookup-insert k k' a m' ∙ rw q (o ∙ rw q refl)
  ]

  pub lookup-reremove :
      (k k' : Bytes) (m m' : Map A)
      → lookup k' m ≡ none
      → lookup k m' ≡ (if bytes_eq k k' then lookup k m' else lookup k m)
      → lookup k (remove k' m') ≡ lookup k m
  lookup-reremove k k' m m' e o = elim (Bool-cases (bytes_eq k k')) [
    | inl q ↦
        lookup-remove k k' m'
        ∙ rw q (sym (subst (λ x. lookup x m ≡ none) (sym (bytes_eq→eq k k' q)) e))
    | inr q ↦ lookup-remove k k' m' ∙ rw q (o ∙ rw q refl)
  ]

  pub untouched-insert :
      (k k' : Bytes) (a : A) (m : Map A)
      → lookup k (insert k' a m) ≡ (if bytes_eq k k' then lookup k (insert k' a m) else lookup k m)
  untouched-insert k k' a m = elim (Bool-cases (bytes_eq k k')) [
    | inl q ↦ rw q refl
    | inr q ↦ lookup-insert k k' a m ∙ rw q refl
  ]

  pub untouched-remove :
      (k k' : Bytes) (m : Map A)
      → lookup k (remove k' m) ≡ (if bytes_eq k k' then lookup k (remove k' m) else lookup k m)
  untouched-remove k k' m = elim (Bool-cases (bytes_eq k k')) [
    | inl q ↦ rw q refl
    | inr q ↦ lookup-remove k k' m ∙ rw q refl
  ]
