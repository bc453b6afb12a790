-- ===== src/RemoteFs/WirePath/Safe.antt =====
-- What a wire path that passes is like.
use open_air.Prelude.{
  ℕ, ◌≡◌, ◌≢◌, inl, inr, refl, sym, ap, subst, ◌∙◌, false, ◌&&◌, Bool-cases, [], ◌∷◌, ◌==◌, length,
  Bytes, All, ok, guarded_ok, ok_injective,
}
use open_air.Files.Path.{empty, backslash, nul, contains, split, bad_components}
use open_air.Files.Path.Safe.{IsName, contains-All, passed, bad_components-IsName}
use open_air.RemoteFs.WirePath.{
  trim_left, trim_right, clean_wire_path, checked_path, safe_wire_path,
}

trim_right_twice : (p : Bytes) → trim_right (trim_right p) ≡ trim_right p
unfolding trim_right
trim_right_twice [] = refl
trim_right_twice (c ∷ p) = elim (Bool-cases (c == 47 && length (trim_right p) == 0)) [
  | inl gone ↦ rw gone refl
  | inr kept ↦ rw (kept, trim_right_twice p, kept) refl
]

trimmed_nothing : trim_right (trim_left (trim_right [])) ≡ trim_right []
unfolding trim_left trim_right
trimmed_nothing = refl

module _ (c : ℕ) (p : Bytes) (first : (c == 47) ≡ false) where
  trim_left_first : trim_left (c ∷ p) ≡ c ∷ p
  unfolding trim_left
  trim_left_first = rw first refl

  trim_right_first : trim_right (c ∷ p) ≡ c ∷ trim_right p
  unfolding trim_right
  trim_right_first = rw first refl

first_kept :
    (c : ℕ) (p : Bytes)
    → (c == 47) ≡ false
    → trim_right (trim_left (trim_right (c ∷ p))) ≡ trim_right (c ∷ p)
first_kept c p first =
    ap (λ q. trim_right (trim_left q)) (trim_right_first c p first)
    ∙ ap trim_right (trim_left_first c (trim_right p) first ∙ sym (trim_right_first c p first))
    ∙ trim_right_twice (c ∷ p)

-- Trimming again changes nothing.
clean_twice : (p : Bytes) → clean_wire_path (clean_wire_path p) ≡ clean_wire_path p
unfolding trim_left
clean_twice [] = trimmed_nothing
clean_twice (c ∷ p) = elim (Bool-cases (c == 47)) [
  | inl slash ↦ rw slash (clean_twice p)
  | inr first ↦ rw first (first_kept c p first)
]

checked :
    (rel q : Bytes)
    → checked_path rel ≡ ok q
    → (q ≡ rel)
      × All IsName ((split rel).0 ∷ (split rel).1)
      × All (λ c. c ≢ 92) rel
      × All (λ c. c ≢ 0) rel
unfolding checked_path
checked rel q h =
    let (a, r1) = guarded_ok (length rel == 0) empty _ h in
    let (b, r2) = guarded_ok (contains rel 92) backslash _ r1 in
    let (c, r3) = guarded_ok (contains rel 0) nul _ r2 in
    let (fine, e) = passed (bad_components (split rel).0 (split rel).1) r3 in
    (
      sym (ok_injective e),
      bad_components-IsName (split rel).0 (split rel).1 fine,
      contains-All 92 rel b,
      contains-All 0 rel c,
    )

-- A wire path that passes comes out without the slashes around it. Every component between its
-- slashes is a plain name, it has no backslash and no NUL, and it passes again and comes out the same.
pub safe_wire_path-IsName :
    (p q : Bytes)
    → safe_wire_path p ≡ ok q
    → (q ≡ clean_wire_path p)
      × All IsName ((split q).0 ∷ (split q).1)
      × All (λ c. c ≢ 92) q
      × All (λ c. c ≢ 0) q
      × (safe_wire_path q ≡ ok q)
unfolding safe_wire_path
safe_wire_path-IsName p q h =
    let rel = clean_wire_path p in
    let (same, names, b, z) = checked rel q h in
    let again : safe_wire_path rel ≡ ok q = ap checked_path (clean_twice p) ∙ h in
    (
      same,
      subst (λ r. All IsName ((split r).0 ∷ (split r).1)) (sym same) names,
      subst (All (λ c. c ≢ 92)) (sym same) b,
      subst (All (λ c. c ≢ 0)) (sym same) z,
      subst (λ r. safe_wire_path r ≡ ok q) (sym same) again,
    )
