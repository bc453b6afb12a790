-- ===== src/RemoteFs/Cache/Eviction.antt =====
-- What `evictLocked` takes away: the least recently used blocks, and no more than it must.
use mathlib.Core.List.{append_assoc, append-nil}
use open_air.Prelude.{
  ℕ, zero, suc, ◌+◌, ◌-◌, ◌≤◌, ◌<◌, ◌≡◌, ◌⊎◌, inl, inr, refl, sym, ap, subst, ◌∙◌, Bool-cases,
  Option-cases, List, [], ◌∷◌, ◌++◌, ltb, ltb→lt, length, length-append, Bytes, Option, none, some,
  arith,
}
use open_air.Prelude.Maps.{Map, remove}
use open_air.RemoteFs.Cache.{Cache, back, evict_loop}

-- The bytes of all blocks.
unfoldable pub total : Map ℕ → ℕ
total [] = 0
total ((name, bytes) ∷ lru) = bytes + total lru

-- Their names, from the back.
unfoldable pub names_back : Map ℕ → List Bytes
names_back [] = []
names_back ((name, bytes) ∷ lru) = names_back lru ++ (name ∷ [])

total_empty : (lru : Map ℕ) → length lru ≤ 0 → total lru ≡ 0
unfolding total
total_empty [] h = refl
total_empty (x ∷ lru) h = absurd (omega arith)

total-snoc :
    (lru : Map ℕ) (name : Bytes) (bytes : ℕ)
    → total (lru ++ ((name, bytes) ∷ [])) ≡ total lru + bytes
unfolding total
total-snoc [] name bytes = omega arith
total-snoc ((n, b) ∷ lru) name bytes = omega (arith, total-snoc lru name bytes)

names_back-snoc :
    (lru : Map ℕ) (name : Bytes) (bytes : ℕ)
    → names_back (lru ++ ((name, bytes) ∷ [])) ≡ name ∷ names_back lru
unfolding names_back
names_back-snoc [] name bytes = refl
names_back-snoc ((n, b) ∷ lru) name bytes = ap (λ l. l ++ (n ∷ [])) (names_back-snoc lru name bytes)

back-none : (lru : Map ℕ) → back lru ≡ none → lru ≡ []
unfolding back
back-none [] h = refl
back-none (x ∷ lru) h = elim (Option-cases (back lru)) [
  | inl n ↦ absurd (grind (arith, rw n at h))
  | inr ((f, last), s) ↦ absurd (grind (arith, rw s at h))
]

pub back-snoc :
    (lru front : Map ℕ) (e : Bytes × ℕ) → back lru ≡ some (front, e) → lru ≡ front ++ (e ∷ [])
unfolding back
back-snoc [] front e h = absurd (grind (arith, h))
back-snoc (x ∷ lru) front e h = elim (Option-cases (back lru)) [
  | inl n ↦
      let one : ◌≡◌ {A = Option (Map ℕ × (Bytes × ℕ))} (some ([], x)) (some (front, e)) =
        rw n at h in
      let a : [] ≡ front = cc in
      let b : x ≡ e = cc in
      let nothing : lru ≡ [] = back-none lru n in
      subst (λ f. x ∷ lru ≡ f ++ (e ∷ [])) a (subst (λ y. x ∷ lru ≡ y ∷ []) b (ap (◌∷◌ x) nothing))
  | inr ((f, last), s) ↦
      let more : ◌≡◌ {A = Option (Map ℕ × (Bytes × ℕ))} (some (x ∷ f, last)) (some (front, e)) =
        rw s at h in
      let a : x ∷ f ≡ front = cc in
      let b : last ≡ e = cc in
      subst (λ g. x ∷ lru ≡ g ++ (e ∷ [])) a
        (subst (λ y. x ∷ lru ≡ (x ∷ f) ++ (y ∷ [])) b (ap (◌∷◌ x) (back-snoc lru f last s)))
]

-- The blocks are the same but for some at the back, whose names are the victims; what is kept fits,
-- and would not with one block more.
pub record Evicted (c c' : Cache) (victims : List Bytes) : Type 0 where
  pub gone : Map ℕ
  pub kept : c.lru ≡ c'.lru ++ gone
  pub named : victims ≡ names_back gone
  pub exact : c'.size ≡ total c'.lru
  pub fits : c'.size ≤ c.max
  pub needed :
      (gone ≡ [])
      ⊎ ((name : Bytes) × (bytes : ℕ) × (rest : Map ℕ) × (gone ≡ (name, bytes) ∷ rest)
          × (c.max < c'.size + bytes))
  pub same_max : c'.max ≡ c.max

unchanged : (c : Cache) → c.size ≡ total c.lru → c.size ≤ c.max → Evicted c c []
unfolding names_back
unchanged c e h = record {
  gone = [];
  kept = sym (append-nil c.lru);
  named = refl;
  exact = e;
  fits = h;
  needed = inl refl;
  same_max = refl;
}

-- One block more, at the back of what else is taken away.
one_more :
    (c c₁ c' : Cache) (name : Bytes) (bytes : ℕ) (victims : List Bytes)
    → c.lru ≡ c₁.lru ++ ((name, bytes) ∷ [])
    → c₁.max ≡ c.max
    → c.max < total c₁.lru + bytes
    → Evicted c₁ c' victims
    → Evicted c c' (name ∷ victims)
one_more c c₁ c' name bytes victims split same over v = record {
  gone = v.gone ++ ((name, bytes) ∷ []);
  kept =
      split
      ∙ ap (λ l. l ++ ((name, bytes) ∷ [])) v.kept
      ∙ append_assoc c'.lru v.gone ((name, bytes) ∷ []);
  named = ap (◌∷◌ name) v.named ∙ sym (names_back-snoc v.gone name bytes);
  exact = v.exact;
  fits = subst (λ m. c'.size ≤ m) same v.fits;
  needed = inr (elim v.needed [
    | inl e ↦
        let all : c₁.lru ≡ c'.lru = v.kept ∙ ap (λ g. c'.lru ++ g) e ∙ append-nil c'.lru in
        let sum : total c₁.lru ≡ c'.size = ap total all ∙ sym v.exact in
        (name, bytes, [], ap (λ g. g ++ ((name, bytes) ∷ [])) e, omega arith)
    | inr (n, b, rest, e, h) ↦ (
      n,
      b,
      rest ++ ((name, bytes) ∷ []),
      ap (λ g. g ++ ((name, bytes) ∷ [])) e,
      omega (arith, same, h),
    )
  ]);
  same_max = v.same_max ∙ same;
}

pub evict_loop-Evicted :
    (fuel : ℕ) (c : Cache)
    → c.size ≡ total c.lru
    → length c.lru ≤ fuel
    → Evicted c (evict_loop fuel c).0 (evict_loop fuel c).1
unfolding evict_loop total
evict_loop-Evicted zero c e h =
    let empty : total c.lru ≡ 0 = total_empty c.lru h in unchanged c e (omega arith)
evict_loop-Evicted (suc fuel) c e h = elim (Bool-cases (ltb c.max c.size)) [
  | inr fits ↦ rw fits (unchanged c e (ground (arith, fits)))
  | inl over ↦ elim (Option-cases (back c.lru)) [
    | inl n ↦ absurd (omega (arith, ltb→lt c.max c.size over, e ∙ ap total (back-none c.lru n)))
    | inr ((front, (name, bytes)), s) ↦
        let split = back-snoc c.lru front (name, bytes) s in
        let c₁ : Cache = record c {
          lru = front;
          entries = remove name c.entries;
          size = c.size - bytes;
        } in
        let sum : total c.lru ≡ total front + bytes =
          ap total split ∙ total-snoc front name bytes in
        let shorter = length-append front ((name, bytes) ∷ []) in
        let len : length c.lru ≡ length (front ++ ((name, bytes) ∷ [])) = ap length split in
        let rest = evict_loop-Evicted fuel c₁ (omega arith) (omega arith) in
        let more : c.max < total front + bytes = omega (arith, ltb→lt c.max c.size over) in
        rw (over, s)
          (one_more c c₁ (evict_loop fuel c₁).0 name bytes (evict_loop fuel c₁).1 split refl more
            rest)
  ]
]
