-- ===== src/RemoteFs/Cache/Counting.antt =====
-- What the steps of the cache's operations do to its count and its index.
use open_air.Prelude.{
  ℕ, ◌+◌, ◌≡◌, inl, inr, refl, sym, ap, subst, ◌∙◌, Bool-cases, Option-cases, [], ◌∷◌,
  if◌then◌else◌, Bytes, bytes_eq, bytes_eq→eq, Option, none, some, arith,
}
use open_air.Prelude.Maps.{
  Map, lookup, insert, remove, lookup-remove_self, lookup-remove, lookup-insert,
}
use open_air.RemoteFs.Cache.{Cache, forget, drop_block, move_to_front, push}
use open_air.RemoteFs.Cache.Eviction.{total}
use open_air.RemoteFs.Cache.Index.{Distinct, Indexed, remove-Distinct}

-- The size is the sum of the blocks'; the map and the list name the same blocks, each once.
abbrev pub Counted : Cache → Type 0
Counted c = (c.size ≡ total c.lru) × Indexed c

total-remove-none :
    (name : Bytes) (lru : Map ℕ) → lookup name lru ≡ none → total (remove name lru) ≡ total lru
unfolding total remove lookup
total-remove-none name [] e = refl
total-remove-none name ((n, b) ∷ lru) e = elim (Bool-cases (bytes_eq name n)) [
  | inl same ↦ absurd (grind (arith, rw same at e))
  | inr other ↦ rw other (ap (λ t. b + t) (total-remove-none name lru (rw other at e)))
]

total-remove :
    (name : Bytes) (bytes : ℕ) (lru : Map ℕ)
    → Distinct lru
    → lookup name lru ≡ some bytes
    → total (remove name lru) + bytes ≡ total lru
unfolding total remove lookup
total-remove name bytes [] d e = absurd (grind (arith, e))
total-remove name bytes ((n, b) ∷ lru) d e = elim (Bool-cases (bytes_eq name n)) [
  | inl same ↦
      let first : ◌≡◌ {A = Option ℕ} (some b) (some bytes) = rw same at e in
      let this : b ≡ bytes = cc in
      let absent : lookup name lru ≡ none =
        subst (λ k. lookup k lru ≡ none) (sym (bytes_eq→eq name n same)) d.0 in
      rw same (omega (arith, total-remove-none name lru absent, this))
  | inr other ↦ rw other (omega (arith, total-remove name bytes lru d.1 (rw other at e)))
]

forget-Counted :
    (name : Bytes) (bytes : ℕ) (c : Cache)
    → lookup name c.entries ≡ some bytes
    → Counted c
    → Counted (forget name bytes c)
forget-Counted name bytes c e (size, x) =
    let sum = total-remove name bytes c.lru x.distinct (sym (x.agrees name) ∙ e) in
    (
      omega (arith, sum, size),
      record {
        agrees = λ k.
            lookup-remove k name c.entries
            ∙ ap (λ o. if bytes_eq k name then none else o) (x.agrees k)
            ∙ sym (lookup-remove k name c.lru);
        distinct = remove-Distinct name c.lru x.distinct;
      },
    )

-- A block that is not there yet comes to the front.
add-Counted :
    (name : Bytes) (bytes : ℕ) (c : Cache)
    → lookup name c.lru ≡ none
    → Counted c
    → Counted (record c {
      lru = (name, bytes) ∷ c.lru;
      entries = insert name bytes c.entries;
      size = c.size + bytes;
    })
unfolding total lookup
add-Counted name bytes c e (size, x) = (
  omega (arith, size),
  record {
    agrees = λ k.
        lookup-insert k name bytes c.entries
        ∙ ap (λ o. if bytes_eq k name then some bytes else o) (x.agrees k);
    distinct = (e, x.distinct);
  },
)

pub push-Counted : (name : Bytes) (bytes : ℕ) (c : Cache) → Counted c → Counted (push name bytes c)
unfolding push
push-Counted name bytes c h = elim (Option-cases (lookup name c.entries)) [
  | inl n ↦ rw n (add-Counted name bytes c (sym (h.1.agrees name) ∙ n) h)
  | inr (old, e) ↦ rw e (
      add-Counted name bytes (forget name old c) (lookup-remove_self name c.lru)
        (forget-Counted name old c e h))
]

pub drop_block-Counted : (name : Bytes) (c : Cache) → Counted c → Counted (drop_block name c).0
unfolding drop_block
drop_block-Counted name c h = elim (Option-cases (lookup name c.entries)) [
  | inl n ↦ rw (drop_block, n) h
  | inr (bytes, e) ↦ rw (drop_block, e) (forget-Counted name bytes c e h)
]

moved :
    (name : Bytes) (bytes : ℕ) (lru : Map ℕ) (k : Bytes)
    → lookup name lru ≡ some bytes
    → lookup k lru ≡ (if bytes_eq k name then some bytes else lookup k (remove name lru))
moved name bytes lru k e = elim (Bool-cases (bytes_eq k name)) [
  | inl same ↦ rw same (subst (λ n. lookup n lru ≡ some bytes) (sym (bytes_eq→eq k name same)) e)
  | inr other ↦ rw other (sym (lookup-remove k name lru ∙ rw other refl))
]

pub move_to_front-Counted :
    (name : Bytes) (bytes : ℕ) (c : Cache)
    → lookup name c.entries ≡ some bytes
    → Counted c
    → Counted (move_to_front name bytes c)
unfolding total lookup
move_to_front-Counted name bytes c e (size, x) =
    let sum = total-remove name bytes c.lru x.distinct (sym (x.agrees name) ∙ e) in
    (
      omega (arith, sum, size),
      record {
        agrees = λ k. x.agrees k ∙ moved name bytes c.lru k (sym (x.agrees name) ∙ e);
        distinct = (lookup-remove_self name c.lru, remove-Distinct name c.lru x.distinct);
      },
    )
