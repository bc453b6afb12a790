-- ===== src/RemoteFs/Cache/Calls.antt =====
-- Any calls on a cache.
use open_air.Prelude.{
  ℕ, inl, inr, refl, Bool, Bool-cases, Option-cases, List, [], ◌∷◌, ◌==◌, length, Bytes, Option,
  arith,
}
use open_air.Prelude.Int.{ℤ}
use open_air.Prelude.Maps.{lookup}
use open_air.RemoteFs.Cache.{Cache, new_cache, move_to_front, opened, get, push, put_block, close}
use open_air.RemoteFs.Cache.Eviction.{total}
use open_air.RemoteFs.Cache.Counting.{push-Counted, drop_block-Counted, move_to_front-Counted}
use open_air.RemoteFs.Cache.Sound.{Sound, drop_block_less, evict_locked-Sound}

pub data CacheCall : Type 0 where
  get_call : Bytes → Option Bytes → CacheCall
  put_call : Bytes → Bytes → Bytes → Bool → CacheCall
  close_call : CacheCall

module _ (nonce_size : ℕ) (aead_open : Bytes → Bytes → Bytes → Option Bytes) where
  unfoldable pub cache_after : CacheCall → Cache → Cache
  cache_after (get_call name file) c = (get nonce_size aead_open name file c).0
  cache_after (put_call name block sealed stored) c = (put_block name block sealed stored c).0
  cache_after close_call c = close c

  unfoldable pub run_cache : List CacheCall → Cache → Cache
  run_cache [] c = c
  run_cache (call ∷ calls) c = run_cache calls (cache_after call c)

  get-Sound :
      (name : Bytes) (file : Option Bytes) (c : Cache)
      → Sound c
      → Sound (get nonce_size aead_open name file c).0
  unfolding get
  get-Sound name file c (h, cap) = elim (Option-cases (lookup name c.entries)) [
    | inl n ↦ rw (get, n) (h, cap)
    | inr (bytes, e) ↦
        let c' = move_to_front name bytes c in
        let h' = move_to_front-Counted name bytes c e h in
        elim (Option-cases (opened nonce_size aead_open name file)) [
          | inr (plain, p) ↦ simp (get, e, p) (h', cap)
          | inl n ↦
              let (less, same) = drop_block_less name c' in
              simp (get, e, n) (drop_block-Counted name c' h', omega (arith, less, same, cap))
        ]
  ]

  put_block-Sound :
      (name block sealed : Bytes) (stored : Bool) (c : Cache)
      → Sound c
      → Sound (put_block name block sealed stored c).0
  unfolding put_block
  put_block-Sound name block sealed stored c (h, cap) = elim (Bool-cases (length block == 0)) [
    | inl empty ↦ rw empty (h, cap)
    | inr some_bytes ↦ elim (Bool-cases stored) [
      | inl yes_stored ↦
          rw (some_bytes, yes_stored)
            (evict_locked-Sound (push name (length sealed) c)
              (push-Counted name (length sealed) c h))
      | inr not_stored ↦ rw (some_bytes, not_stored) (h, cap)
    ]
  ]

  cache_after-Sound : (call : CacheCall) (c : Cache) → Sound c → Sound (cache_after call c)
  unfolding cache_after total
  cache_after-Sound (get_call name file) c h = get-Sound name file c h
  cache_after-Sound (put_call name block sealed stored) c h =
      put_block-Sound name block sealed stored c h
  cache_after-Sound close_call c h =
      ((refl, record { agrees = λ name. refl; distinct = tt }), omega arith)

  run_cache-Sound : (calls : List CacheCall) (c : Cache) → Sound c → Sound (run_cache calls c)
  unfolding run_cache
  run_cache-Sound [] c h = h
  run_cache-Sound (call ∷ calls) c h =
      run_cache-Sound calls (cache_after call c) (cache_after-Sound call c h)

  -- After any calls on a new cache, whatever the files hold and whichever writes fail, the size is the
  -- sum of the blocks' sizes and not above the cap, and the map and the list name the same blocks,
  -- each once and with the same size.
  pub new_cache-Sound :
      (calls : List CacheCall) (max_bytes : ℤ) → Sound (run_cache calls (new_cache max_bytes))
  unfolding total
  new_cache-Sound calls max_bytes =
      run_cache-Sound calls (new_cache max_bytes)
        ((refl, record { agrees = λ name. refl; distinct = tt }), omega arith)
