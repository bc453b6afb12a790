-- ===== src/Files/ChunkSet/Marks.antt =====
-- What the set holds after a chunk is marked.
use open_air.Prelude.{
  ℕ, ◌+◌, ◌/◌, ◌%◌, ◌^◌, ◌<◌, ◌≡◌, ◌≢◌, refl, sym, ap, inl, inr, true, false, Bool-cases, not, ◌&&◌,
  ltb, ◌==◌, if◌then◌else◌, ℕ_discrete, length, get_or, set, get_or-set_self, get_or-set_ne, arith,
}
use open_air.Files.ChunkSet.{ChunkSet, bit_at, has, mark}
use open_air.Files.ChunkSet.Bits.{bit_set}

-- The bitmap has a bit for every chunk.
abbrev pub IsSized : ChunkSet → Type 0
IsSized s = length s.bits ≡ (s.n + 7) / 8

place_in_byte : (i j : ℕ) → i / 8 ≡ j / 8 → ((j % 8) == (i % 8)) ≡ (j == i)
place_in_byte i j e = elim (ℕ_discrete j i) [
  | yes q ↦ let t : (j % 8) ≡ (i % 8) = omega arith in ground (arith, t, q)
  | no d ↦ let t : (j % 8) ≢ (i % 8) = λ q. absurd (d (omega arith)) in ground (arith, t, d)
]

bit_at-set :
    (s : ChunkSet) (i j : ℕ)
    → IsSized s
    → i < s.n
    → bit_at s.bits i ≡ false
    → bit_at (set s.bits (i / 8) (get_or s.bits (i / 8) 0 + 2 ^ (i % 8))) j
      ≡ (if j == i then true else bit_at s.bits j)
bit_at-set s i j w lt h = elim (ℕ_discrete (i / 8) (j / 8)) [
  | yes e ↦
      let b = get_or s.bits (i / 8) 0 in
      let same : ((j % 8) == (i % 8)) ≡ (j == i) = place_in_byte i j e in
      rw
        (
          ← e,
          get_or-set_self s.bits (i / 8) (b + 2 ^ (i % 8)) 0 (omega arith),
          bit_set b (i % 8) (j % 8) (omega arith) (omega arith) h,
          same,
        )
        refl
  | no ne ↦
      let other : (j == i) ≡ false = elim (ℕ_discrete j i) [
        | yes e ↦ absurd (ne (ap (λ x. x / 8) (sym e)))
        | no d ↦ ground (arith, d)
      ] in
      rw (get_or-set_ne s.bits (i / 8) (j / 8) (get_or s.bits (i / 8) 0 + 2 ^ (i % 8)) 0 ne, other)
        refl
]

-- Where the bitmap has a bit for every chunk, `mark` adds the chunk that it is given, if it is one
-- of the transfer's, and changes nothing else of what `has` answers.
pub has-mark :
    (s : ChunkSet) (i j : ℕ)
    → IsSized s
    → has (mark s i) j ≡ (if (j == i) && ltb i s.n then true else has s j)
unfolding has mark
has-mark s i j w = elim (Bool-cases (ltb i s.n && not (bit_at s.bits i))) [
  | inl new ↦
      let lt : i < s.n = ground (arith, new) in
      let clear : bit_at s.bits i ≡ false = ground (arith, new) in
      rw (new, bit_at-set s i j w lt clear) (ground (arith, lt))
  | inr old ↦ elim (ℕ_discrete j i) [
    | yes q ↦ rw (old, q) (ground (arith, old))
    | no d ↦ rw old (ground (arith, d))
  ]
]
