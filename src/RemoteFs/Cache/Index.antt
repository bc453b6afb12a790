-- ===== src/RemoteFs/Cache/Index.antt =====
-- The cache's map and its list name the same blocks.
use open_air.Prelude.{
  ℕ, zero, suc, ◌-◌, ◌≡◌, inl, inr, refl, sym, ap, subst, ◌∙◌, Bool, false, Bool-cases,
  Option-cases, [], ◌∷◌, ◌++◌, ltb, if◌then◌else◌, Bytes, bytes_eq, bytes_eq_refl, bytes_eq→eq,
  Option, none, some, arith,
}
use open_air.Prelude.Maps.{Map, lookup, remove, lookup-remove}
use open_air.RemoteFs.Cache.{Cache, back, evict_loop}
use open_air.RemoteFs.Cache.Eviction.{back-snoc}

abbrev pub Distinct : Map ℕ → Type 0
Distinct [] = Unit {0}
Distinct ((name, bytes) ∷ lru) = (lookup name lru ≡ none) × Distinct lru

pub record Indexed (c : Cache) : Type 0 where
  pub agrees : (name : Bytes) → lookup name c.entries ≡ lookup name c.lru
  pub distinct : Distinct c.lru

pub remove-Distinct : (k : Bytes) (lru : Map ℕ) → Distinct lru → Distinct (remove k lru)
unfolding remove
remove-Distinct k [] d = tt
remove-Distinct k ((n, b) ∷ lru) d = elim (Bool-cases (bytes_eq k n)) [
  | inl same ↦ rw same (remove-Distinct k lru d.1)
  | inr other ↦
      let fresh : lookup n (remove k lru) ≡ none =
        lookup-remove n k lru
        ∙ ap (λ o. if bytes_eq n k then none else o) d.0
        ∙ if_same (bytes_eq n k) in
      rw other (fresh, remove-Distinct k lru d.1)
]
  where
    if_same : (t : Bool) → ◌≡◌ {A = Option ℕ} (if t then none else none) none
    if_same t = ground arith

-- Cutting off the last block.
module _ (name : Bytes) (bytes : ℕ) where
  lookup-snoc :
      (k : Bytes) (lru : Map ℕ)
      → bytes_eq k name ≡ false
      → lookup k (lru ++ ((name, bytes) ∷ [])) ≡ lookup k lru
  unfolding lookup
  lookup-snoc k [] ne = rw ne refl
  lookup-snoc k ((n, b) ∷ lru) ne =
      ap (λ o. if bytes_eq k n then some b else o) (lookup-snoc k lru ne)

  lookup-snoc_none :
      (k : Bytes) (lru : Map ℕ)
      → lookup k (lru ++ ((name, bytes) ∷ [])) ≡ none
      → lookup k lru ≡ none
  unfolding lookup
  lookup-snoc_none k [] h = refl
  lookup-snoc_none k ((n, b) ∷ lru) h = elim (Bool-cases (bytes_eq k n)) [
    | inl same ↦ absurd (grind (arith, rw same at h))
    | inr other ↦ rw other (lookup-snoc_none k lru (rw other at h))
  ]

  lookup-snoc_self : (lru : Map ℕ) → ¬ (lookup name (lru ++ ((name, bytes) ∷ [])) ≡ none)
  unfolding lookup
  lookup-snoc_self [] h = grind (arith, rw (bytes_eq_refl name) at h)
  lookup-snoc_self ((n, b) ∷ lru) h = elim (Bool-cases (bytes_eq name n)) [
    | inl same ↦ grind (arith, rw same at h)
    | inr other ↦ lookup-snoc_self lru (rw other at h)
  ]

  snoc-Distinct :
      (lru : Map ℕ)
      → Distinct (lru ++ ((name, bytes) ∷ []))
      → Distinct lru × (lookup name lru ≡ none)
  unfolding lookup
  snoc-Distinct [] d = (tt, refl)
  snoc-Distinct ((n, b) ∷ lru) d =
      let (rest, absent) = snoc-Distinct lru d.1 in
      elim (Bool-cases (bytes_eq name n)) [
        | inl same ↦ absurd (
            lookup-snoc_self lru (
              subst (λ k. lookup k (lru ++ ((name, bytes) ∷ [])) ≡ none)
                (sym (bytes_eq→eq name n same)) d.0))
        | inr other ↦ ((lookup-snoc_none n lru d.0, rest), rw other absent)
      ]

-- Evicting the last block takes it out of both.
cut_off :
    (c : Cache) (front : Map ℕ) (name : Bytes) (bytes : ℕ)
    → c.lru ≡ front ++ ((name, bytes) ∷ [])
    → Indexed c
    → Indexed (record c { lru = front; entries = remove name c.entries; size = c.size - bytes })
cut_off c front name bytes split x =
    let (rest, absent) = snoc-Distinct name bytes front (subst Distinct split x.distinct) in
    record {
      agrees = λ k. elim (Bool-cases (bytes_eq k name)) [
        | inl same ↦
            lookup-remove k name c.entries
            ∙ rw same
                (subst (λ n. none ≡ lookup n front) (sym (bytes_eq→eq k name same)) (sym absent))
        | inr other ↦
            lookup-remove k name c.entries
            ∙ rw other (x.agrees k ∙ ap (lookup k) split ∙ lookup-snoc name bytes k front other)
      ];
      distinct = rest;
    }

pub evict_loop-Indexed : (fuel : ℕ) (c : Cache) → Indexed c → Indexed (evict_loop fuel c).0
unfolding evict_loop
evict_loop-Indexed zero c x = x
evict_loop-Indexed (suc fuel) c x = elim (Bool-cases (ltb c.max c.size)) [
  | inr fits ↦ rw fits x
  | inl over ↦ elim (Option-cases (back c.lru)) [
    | inl n ↦ rw (over, n) x
    | inr ((front, (name, bytes)), s) ↦
        let c₁ : Cache = record c {
          lru = front;
          entries = remove name c.entries;
          size = c.size - bytes;
        } in
        let x₁ : Indexed c₁ =
          cut_off c front name bytes (back-snoc c.lru front (name, bytes) s) x in
        rw (over, s) (evict_loop-Indexed fuel c₁ x₁)
  ]
]
