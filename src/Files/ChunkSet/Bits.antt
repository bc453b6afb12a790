-- ===== src/Files/ChunkSet/Bits.antt =====
-- Setting one bit of a byte.
use open_air.Prelude.{ℕ, zero, suc, ◌+◌, ◌^◌, ◌<◌, ◌≡◌, true, false, arith, ◌==◌, if◌then◌else◌}
use open_air.Files.ChunkSet.{bit}

-- The eight places of a byte.
eight : (k : ℕ) → k < 8 → (P : ℕ → Type 0) → P 0 → P 1 → P 2 → P 3 → P 4 → P 5 → P 6 → P 7 → P k
eight zero p P a b c d e f g h = a
eight (suc zero) p P a b c d e f g h = b
eight (suc (suc zero)) p P a b c d e f g h = c
eight (suc (suc (suc zero))) p P a b c d e f g h = d
eight (suc (suc (suc (suc zero)))) p P a b c d e f g h = e
eight (suc (suc (suc (suc (suc zero))))) p P a b c d e f g h = f
eight (suc (suc (suc (suc (suc (suc zero)))))) p P a b c d e f g h = g
eight (suc (suc (suc (suc (suc (suc (suc zero))))))) p P a b c d e f g h = h
eight (suc (suc (suc (suc (suc (suc (suc (suc k)))))))) p P a b c d e f g h = absurd (omega arith)

abbrev Sets : ℕ → ℕ → ℕ → Type 0
Sets b k j = bit (b + 2 ^ k) j ≡ (if j == k then true else bit b j)

set_0 : (b j : ℕ) → bit b 0 ≡ false → j < 8 → Sets b 0 j
set_0 b j h q =
    eight j q (Sets b 0) (ground arith) (ground arith) (ground arith) (ground arith) (ground arith)
      (ground arith) (ground arith) (ground arith)

set_1 : (b j : ℕ) → bit b 1 ≡ false → j < 8 → Sets b 1 j
set_1 b j h q =
    eight j q (Sets b 1) (ground arith) (ground arith) (ground arith) (ground arith) (ground arith)
      (ground arith) (ground arith) (ground arith)

set_2 : (b j : ℕ) → bit b 2 ≡ false → j < 8 → Sets b 2 j
set_2 b j h q =
    eight j q (Sets b 2) (ground arith) (ground arith) (ground arith) (ground arith) (ground arith)
      (ground arith) (ground arith) (ground arith)

set_3 : (b j : ℕ) → bit b 3 ≡ false → j < 8 → Sets b 3 j
set_3 b j h q =
    eight j q (Sets b 3) (ground arith) (ground arith) (ground arith) (ground arith) (ground arith)
      (ground arith) (ground arith) (ground arith)

set_4 : (b j : ℕ) → bit b 4 ≡ false → j < 8 → Sets b 4 j
set_4 b j h q =
    eight j q (Sets b 4) (ground arith) (ground arith) (ground arith) (ground arith) (ground arith)
      (ground arith) (ground arith) (ground arith)

set_5 : (b j : ℕ) → bit b 5 ≡ false → j < 8 → Sets b 5 j
set_5 b j h q =
    eight j q (Sets b 5) (ground arith) (ground arith) (ground arith) (ground arith) (ground arith)
      (ground arith) (ground arith) (ground arith)

set_6 : (b j : ℕ) → bit b 6 ≡ false → j < 8 → Sets b 6 j
set_6 b j h q =
    eight j q (Sets b 6) (ground arith) (ground arith) (ground arith) (ground arith) (ground arith)
      (ground arith) (ground arith) (ground arith)

set_7 : (b j : ℕ) → bit b 7 ≡ false → j < 8 → Sets b 7 j
set_7 b j h q =
    eight j q (Sets b 7) (ground arith) (ground arith) (ground arith) (ground arith) (ground arith)
      (ground arith) (ground arith) (ground arith)

-- A bit that is not set is set by adding its value, and no other bit changes.
pub bit_set :
    (b k j : ℕ)
    → k < 8
    → j < 8
    → bit b k ≡ false
    → bit (b + 2 ^ k) j ≡ (if j == k then true else bit b j)
bit_set b k j p q h =
    eight k p (λ k. bit b k ≡ false → Sets b k j) (λ h. set_0 b j h q) (λ h. set_1 b j h q)
      (λ h. set_2 b j h q) (λ h. set_3 b j h q) (λ h. set_4 b j h q) (λ h. set_5 b j h q)
      (λ h. set_6 b j h q) (λ h. set_7 b j h q) h
