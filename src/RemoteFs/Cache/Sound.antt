-- ===== src/RemoteFs/Cache/Sound.antt =====
-- A cache that is counted, indexed and under its cap, and what storing a block does to it.
use open_air.Prelude.{
  ℕ, ◌≤◌, ◌≡◌, inl, inr, refl, sym, ap, ◌∙◌, true, false, Bool-cases, Option-cases, [], ◌∷◌, ◌==◌,
  length, Bytes, bytes_eq, none, arith,
}
use open_air.Prelude.Maps.{Map, lookup, remove}
use open_air.RemoteFs.Cache.{Cache, evict_locked, drop_block, push, put_block}
use open_air.RemoteFs.Cache.Eviction.{Evicted, evict_loop-Evicted}
use open_air.RemoteFs.Cache.Index.{Indexed, evict_loop-Indexed}
use open_air.RemoteFs.Cache.Counting.{Counted, push-Counted}

abbrev pub Sound : Cache → Type 0
Sound c = Counted c × (c.size ≤ c.max)

pub drop_block_less :
    (name : Bytes) (c : Cache)
    → ((drop_block name c).0.size ≤ c.size) × ((drop_block name c).0.max ≡ c.max)
unfolding drop_block
drop_block_less name c = elim (Option-cases (lookup name c.entries)) [
  | inl n ↦ rw (drop_block, n) (omega arith, refl)
  | inr (bytes, e) ↦ rw (drop_block, e) (omega arith, refl)
]

push_max : (name : Bytes) (bytes : ℕ) (c : Cache) → (push name bytes c).max ≡ c.max
unfolding push
push_max name bytes c = elim (Option-cases (lookup name c.entries)) [
  | inl n ↦ rw (push, n) refl
  | inr (old, e) ↦ rw (push, e) refl
]

remove_absent : (name : Bytes) (lru : Map ℕ) → lookup name lru ≡ none → remove name lru ≡ lru
unfolding remove lookup
remove_absent name [] e = refl
remove_absent name ((n, b) ∷ lru) e = elim (Bool-cases (bytes_eq name n)) [
  | inl same ↦ absurd (grind (arith, rw same at e))
  | inr other ↦ rw other (ap (◌∷◌ (n, b)) (remove_absent name lru (rw other at e)))
]

push_lru :
    (name : Bytes) (bytes : ℕ) (c : Cache)
    → Indexed c
    → (push name bytes c).lru ≡ (name, bytes) ∷ remove name c.lru
unfolding push
push_lru name bytes c x = elim (Option-cases (lookup name c.entries)) [
  | inl n ↦
      rw (push, n)
        (ap (◌∷◌ (name, bytes)) (sym (remove_absent name c.lru (sym (x.agrees name) ∙ n))))
  | inr (old, e) ↦ rw (push, e) refl
]

pub evict_locked-Sound : (c : Cache) → Counted c → Sound (evict_locked c).0
evict_locked-Sound c (size, x) =
    let v = evict_loop-Evicted (length c.lru) c size (omega arith) in
    let fits = v.fits in
    let same = v.same_max in
    ((v.exact, evict_loop-Indexed (length c.lru) c x), omega (arith, fits, same))

-- Storing a block that is not empty in a sound cache, if the file could be stored: the blocks are
-- then the new one, in front, and after it those of before, of other names and in their order, all
-- but some at the back, whose files are to be unlinked. What is kept is counted, fits under the
-- cap, and would not with the next of those.
pub put_block-Evicted :
    (name block sealed : Bytes) (c : Cache)
    → Sound c
    → (length block == 0) ≡ false
    → ((push name (length sealed) c).lru ≡ (name, length sealed) ∷ remove name c.lru)
      × Evicted
          (push name (length sealed) c)
          (put_block name block sealed true c).0
          (put_block name block sealed true c).1
unfolding put_block
put_block-Evicted name block sealed c ((size, x), cap) some_bytes =
    let c' = push name (length sealed) c in
    let (size', x') = push-Counted name (length sealed) c (size, x) in
    (
      push_lru name (length sealed) c x,
      rw some_bytes (evict_loop-Evicted (length c'.lru) c' size' (omega arith)),
    )
