-- ===== src/RemoteFs/Cache.antt =====
-- internal/caps/remotefs/cache.go: the size-capped cache of file blocks. An element of the list is its
-- name and its size, and the map's element is known by them. The lock makes each of its holders one
-- step. The cipher is a parameter; so are the files: `get` is given what reading the block's file
-- gave, `put_block` whether the new file could be stored, and the files to unlink are returned. The
-- reading and the uses of the lock around it are one step here. A nil cache, which only misses, is
-- left out.
pub mod Eviction
pub mod Index
pub mod Counting
pub mod Sound
pub mod Calls
mod Tests
use open_air.Prelude.{
  ℕ, zero, suc, ◌+◌, ◌-◌, ◌*◌, ◌^◌, Bool, true, false, List, [], ◌∷◌, ltb, ◌==◌, if◌then◌else◌,
  length, take, drop, Bytes, Option, none, some,
}
use open_air.Prelude.Int.{ℤ, pos, pos_part, leb_ℤ}
use open_air.Prelude.Maps.{Map, lookup, insert, remove}

abbrev pub default_cache_bytes : ℕ
default_cache_bytes = 512 * 2 ^ 20

-- `lru` has the most recently used block first.
pub record Cache : Type 0 where
  pub max : ℕ
  pub lru : Map ℕ
  pub entries : Map ℕ
  pub size : ℕ

abbrev pub new_cache : ℤ → Cache
new_cache max_bytes = record {
  max = if leb_ℤ max_bytes (pos 0) then default_cache_bytes else pos_part max_bytes;
  lru = [];
  entries = [];
  size = 0;
}

-- The list without its last element, and that element: `Back`.
unfoldable pub back : Map ℕ → Option (Map ℕ × (Bytes × ℕ))
back [] = none
back (e ∷ lru) =
    let rest = back lru in
    elim rest [ none ↦ some ([], e) | some (front, last) ↦ some (e ∷ front, last) ]

-- What the cache is without an element that it holds.
abbrev pub forget : Bytes → ℕ → Cache → Cache
forget name bytes c = record c {
  lru = remove name c.lru;
  entries = remove name c.entries;
  size = c.size - bytes;
}

-- `evictLocked`, with a round for each element of the list.
unfoldable pub evict_loop : ℕ → Cache → Cache × List Bytes
evict_loop zero c = (c, [])
evict_loop (suc fuel) c =
    if ltb c.max c.size
    then elim (back c.lru) [
      | none ↦ (c, [])
      | some (front, (name, bytes)) ↦
          let (c', victims) =
            evict_loop fuel
              (record c { lru = front; entries = remove name c.entries; size = c.size - bytes }) in
          (c', name ∷ victims)
    ]
    else (c, [])

abbrev pub evict_locked : Cache → Cache × List Bytes
evict_locked c = evict_loop (length c.lru) c

-- `drop`, with the file to unlink.
unfoldable pub drop_block : Bytes → Cache → Cache × List Bytes
drop_block name c = elim (lookup name c.entries) [
  | none ↦ (c, name ∷ [])
  | some bytes ↦ (forget name bytes c, name ∷ [])
]

-- `MoveToFront`
abbrev pub move_to_front : Bytes → ℕ → Cache → Cache
move_to_front name bytes c = record c { lru = (name, bytes) ∷ remove name c.lru }

-- `aead_open nonce ciphertext name`; a nonce is `nonce_size` long.
module _ (nonce_size : ℕ) (aead_open : Bytes → Bytes → Bytes → Option Bytes) where
  -- The block in a file, if there is one.
  abbrev pub opened : Bytes → Option Bytes → Option Bytes
  opened name none = none
  opened name (some sealed) =
      if ltb (length sealed) nonce_size
      then none
      else aead_open (take nonce_size sealed) (drop nonce_size sealed) name

  -- `Get` of the block `name`: the cache, the files to unlink, and the block.
  unfoldable pub get : Bytes → Option Bytes → Cache → Cache × List Bytes × Option Bytes
  get name file c = elim (lookup name c.entries) [
    | none ↦ (c, [], none)
    | some bytes ↦
        let c' = move_to_front name bytes c in
        elim (opened name file) [
          | some plain ↦ (c', [], some plain)
          | none ↦ let (c'', unlinked) = drop_block name c' in (c'', unlinked, none)
        ]
  ]

-- The new element at the front, in place of one of the same name.
unfoldable pub push : Bytes → ℕ → Cache → Cache
push name bytes c =
    let without : Cache = elim (lookup name c.entries) [
      | none ↦ c
      | some old ↦ forget name old c
    ] in
    record without {
      lru = (name, bytes) ∷ without.lru;
      entries = insert name bytes without.entries;
      size = without.size + bytes;
    }

-- `Put` of `block`, whose sealed form is `sealed`: the cache and the files to unlink.
unfoldable pub put_block : Bytes → Bytes → Bytes → Bool → Cache → Cache × List Bytes
put_block name block sealed stored c =
    if length block == 0
    then (c, [])
    else if stored
    then evict_locked (push name (length sealed) c)
    else (c, [])

abbrev pub close : Cache → Cache
close c = record c { lru = []; entries = []; size = 0 }
