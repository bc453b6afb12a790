-- ===== src/Congestion/RingBuffer/Places.antt =====
-- Positions in a valid ring.
use open_air.Prelude.{
  ℕ, ◌+◌, ◌-◌, ◌%◌, ◌≤◌, ◌<◌, ◌≡◌, ap, ◌≢◌, ◌↔◌, true, dec_lt, [], ◌==◌, if◌then◌else◌, length,
  arith,
}
use open_air.Congestion.RingBuffer.{RingBuffer, len, is_empty}
use open_air.Congestion.RingBuffer.Contents.{length-tabulate, place, contents, IsValid}
use native.Mathlib.Nat.{mod-eq_of_lt, mod-eq-sub-mod}

-- Positions behind the head, as far as the ring goes, are within it, and distinct.
pub place_in_range : (cap h i : ℕ) → h < cap → i < cap → place cap h i < cap
place_in_range cap h i p q = ground arith

pub place_injective : (cap h i j : ℕ) → h < cap → i < j → j < cap → place cap h i ≢ place cap h j
place_injective cap h i j p q s e = ground arith

-- The remainder that `Offset` takes is the position behind the head.
pub place-mod : (cap h i : ℕ) → h < cap → i < cap → (h + i) % cap ≡ place cap h i
place-mod cap h i p q = elim (dec_lt (h + i) cap) [
  | yes l ↦ ground (arith, mod-eq_of_lt l)
  | no nl ↦ ground (
    arith,
    mod-eq-sub-mod {n = h + i} {m = cap} (omega arith),
    mod-eq_of_lt {n = h + i - cap} {m = cap} (omega arith),
  )
]

module _ {ℓ} {A : Type ℓ} where
  -- The position behind `i`, going round.
  abbrev pub next_place : RingBuffer A → ℕ → ℕ
  next_place r i = if i + 1 == length r.ring then 0 else i + 1

  pub len-le : (r : RingBuffer A) → IsValid r → len r ≤ length r.ring
  unfolding len
  len-le r v = ground arith

  pub is_empty-len : (r : RingBuffer A) → IsValid r → is_empty r ≡ (len r == 0)
  unfolding is_empty len
  is_empty-len r v = ground (arith, v.in_range)

module _ {ℓ} {A : Type ℓ} (z : A) where
  pub length-contents : (r : RingBuffer A) → length (contents z r) ≡ len r
  length-contents r = length-tabulate _ (len r)

  pub is_empty-contents : (r : RingBuffer A) → IsValid r → (is_empty r ≡ true) ↔ (contents z r ≡ [])
  is_empty-contents r v = (
    λ h. let e : len r ≡ 0 = ground (arith, is_empty-len r v) in rw e,
    λ h. ground (arith, is_empty-len r v, ap length h, length-contents r),
  )
