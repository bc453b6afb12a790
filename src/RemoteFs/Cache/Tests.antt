-- ===== src/RemoteFs/Cache/Tests.antt =====
-- A cache of ten bytes, and blocks of four and five.
use open_air.Prelude.{
  ℕ, ◌≡◌, refl, subst, true, bytes_eq, length, List, [], ◌∷◌, replicate, Bytes, Option, some,
}
use open_air.Prelude.Int.{pos}
use open_air.Prelude.Maps.{lookup, insert, remove}
use open_air.RemoteFs.Cache.{Cache, new_cache, back, evict_loop, drop_block, get, push, put_block}
use open_air.RemoteFs.Cache.Eviction.{Evicted}
use open_air.RemoteFs.Cache.Sound.{Sound, put_block-Evicted}
use open_air.RemoteFs.Cache.Calls.{
  CacheCall, get_call, put_call, cache_after, run_cache, new_cache-Sound,
}

abbrev block_name : ℕ → Bytes
block_name n = 107 ∷ 45 ∷ n ∷ []

abbrev toy_open : Bytes → Bytes → Bytes → Option Bytes
toy_open nonce ct name = some ct

abbrev calls : List CacheCall
calls =
    put_call (block_name 1) (7 ∷ []) (replicate 4 7) true
    ∷ put_call (block_name 2) (8 ∷ []) (replicate 4 8) true
    ∷ get_call (block_name 1) (some (replicate 4 7))
    ∷ []

abbrev two_blocks : Cache
two_blocks = record {
  max = 10;
  lru = (block_name 1, 4) ∷ (block_name 2, 4) ∷ [];
  entries = (block_name 2, 4) ∷ (block_name 1, 4) ∷ [];
  size = 8;
}

filled : run_cache 1 toy_open calls (new_cache (pos 10)) ≡ two_blocks
unfolding run_cache cache_after get put_block push evict_loop back drop_block lookup insert remove
    bytes_eq
filled = refl

-- The third block takes the place of the one that was used least recently.
third_block :
    (put_block (block_name 3) (9 ∷ []) (replicate 5 9) true two_blocks).1 ≡ block_name 2 ∷ []
unfolding put_block push evict_loop back lookup insert remove bytes_eq
third_block = refl

broken_file : (get 1 toy_open (block_name 2) (some []) two_blocks).0.lru ≡ (block_name 1, 4) ∷ []
unfolding get drop_block lookup remove bytes_eq
broken_file = refl

abbrev third : Bytes
third = replicate 5 9

new_cache-Sound_example : Sound (run_cache 1 toy_open calls (new_cache (pos 10)))
new_cache-Sound_example = new_cache-Sound 1 toy_open calls (pos 10)

two_blocks-Sound : Sound two_blocks
two_blocks-Sound = subst Sound filled (new_cache-Sound 1 toy_open calls (pos 10))

put_evicting_test :
    ((push (block_name 3) (length third) two_blocks).lru
      ≡ (block_name 3, length third) ∷ remove (block_name 3) two_blocks.lru)
    × Evicted
        (push (block_name 3) (length third) two_blocks)
        (put_block (block_name 3) (9 ∷ []) third true two_blocks).0
        (put_block (block_name 3) (9 ∷ []) third true two_blocks).1
put_evicting_test = put_block-Evicted (block_name 3) (9 ∷ []) third two_blocks two_blocks-Sound refl
