-- ===== src/Files/Path/Safe.antt =====
-- A path that passes stays below the destination whatever its components are joined to.
use open_air.Prelude.{
  ℕ, ◌≡◌, ◌≢◌, inl, inr, refl, sym, ap, subst, ◌∙◌, false, Bool-cases, Option-cases, List, [], ◌∷◌,
  ◌==◌, length, Bytes, bytes_eq, All, Option, none, some, Result, ok, err, guarded_ok, ok_injective,
  arith,
}
use open_air.Files.Path.{
  PathError, empty, backslash, nul, absolute, contains, split, join, starts_with_slash,
  bad_component, bad_components, safe_rel,
}

join-split : (p : Bytes) → join (split p).0 (split p).1 ≡ p
unfolding join split
join-split [] = refl
join-split (c ∷ p) = elim (Bool-cases (c == 47)) [
  | inl e ↦ let slash : 47 ≡ c = ground arith in rw (e, join-split p) (ap (λ x. x ∷ p) slash)
  | inr e ↦ rw e (join-cons c (split p).0 (split p).1 ∙ ap (◌∷◌ c) (join-split p))
]
  where
    join-cons : (c : ℕ) (e : Bytes) (es : List Bytes) → join (c ∷ e) es ≡ c ∷ join e es
    join-cons c e [] = refl
    join-cons c e (e' ∷ es) = refl

-- A component that is a plain name: not empty, not `.` or `..`, and with no colon.
pub record IsName (e : Bytes) : Type 0 where
  pub not_empty : e ≢ []
  pub not_dot : e ≢ 46 ∷ []
  pub not_dots : e ≢ 46 ∷ 46 ∷ []
  pub no_colon : All (λ c. c ≢ 58) e

pub contains-All : (c : ℕ) (e : Bytes) → contains e c ≡ false → All (λ x. x ≢ c) e
unfolding contains
contains-All c [] h = tt
contains-All c (x ∷ e) h = elim (Bool-cases (x == c)) [
  | inl q ↦ absurd (ground (arith, h))
  | inr q ↦ (ground arith, contains-All c e (ground (arith, h)))
]

bad_component-IsName : (e : Bytes) → bad_component e ≡ none → IsName e
unfolding bad_component bytes_eq
bad_component-IsName e h = record {
  not_empty = λ q. absurd (grind (arith, subst (λ x. bad_component x ≡ none) q h));
  not_dot = λ q. absurd (grind (arith, subst (λ x. bad_component x ≡ none) q h));
  not_dots = λ q. absurd (grind (arith, subst (λ x. bad_component x ≡ none) q h));
  no_colon = contains-All 58 e (ground (arith, h));
}

pub bad_components-IsName :
    (e : Bytes) (es : List Bytes) → bad_components e es ≡ none → All IsName (e ∷ es)
unfolding bad_components
bad_components-IsName e [] h = (bad_component-IsName e h, tt)
bad_components-IsName e (e' ∷ es) h = elim (Option-cases (bad_component e)) [
  | inl q ↦ (bad_component-IsName e q, bad_components-IsName e' es (ground (arith, h, q)))
  | inr (x, q) ↦ absurd (ground (arith, h, q))
]

pub passed :
    (m : Option PathError) {x y : Bytes}
    → ◌≡◌ {A = Result PathError Bytes} (elim m [ some e ↦ err e | none ↦ ok x ]) (ok y)
    → (m ≡ none) × (◌≡◌ {A = Result PathError Bytes} (ok x) (ok y))
passed none h = (refl, h)
passed (some e) h = absurd (grind arith)

-- A path that passes comes out as it went in. It is relative, every component between its slashes
-- is a plain name, and it has no backslash and no NUL.
pub safe_rel-IsName :
    (p q : Bytes)
    → safe_rel p ≡ ok q
    → (q ≡ p) × All IsName ((split p).0 ∷ (split p).1) × All (λ c. c ≢ 92) p × All (λ c. c ≢ 0) p
unfolding safe_rel
safe_rel-IsName p q h =
    let (a, r1) = guarded_ok (length p == 0) empty _ h in
    let (b, r2) = guarded_ok (contains p 92) backslash _ r1 in
    let (c, r3) = guarded_ok (contains p 0) nul _ r2 in
    let (d, r4) = guarded_ok (starts_with_slash p) absolute _ r3 in
    let (fine, e) = passed (bad_components (split p).0 (split p).1) r4 in
    (
      sym (ok_injective e) ∙ join-split p,
      bad_components-IsName (split p).0 (split p).1 fine,
      contains-All 92 p b,
      contains-All 0 p c,
    )
