-- ===== src/Identity/DeviceId.antt =====
-- internal/identity/deviceid.go. SHA-256 is a parameter. RFC 4648 base32 takes five bytes to eight
-- characters, and fewer at the end of the input, with no padding.
use open_air.Prelude.{
  ℕ, zero, suc, ◌+◌, ◌-◌, ◌*◌, ◌/◌, ◌%◌, ◌^◌, Bool, true, false, ◌&&◌, ◌||◌, List, [], ◌∷◌, ◌++◌,
  map, ltb, leb, ◌==◌, if◌then◌else◌, length, take, drop, Bytes,
}
use open_air.Identity.Types.{DeviceId}
pub mod Laws

abbrev pub device_id_len : ℕ
device_id_len = 16

-- `base32.StdEncoding`'s alphabet, A-Z and 2-7.
abbrev pub base32_char : ℕ → ℕ
base32_char v = if ltb v 26 then 65 + v else 24 + v

-- The `n` characters that carry the highest bits of a 40-bit group.
abbrev pub group_chars : ℕ → ℕ → Bytes
group_chars v zero = []
group_chars v (suc n) = base32_char (v / 2 ^ 35) ∷ group_chars (v % 2 ^ 35 * 32) n

abbrev group : ℕ → ℕ → ℕ → ℕ → ℕ → ℕ
group a b c d e = (((a * 256 + b) * 256 + c) * 256 + d) * 256 + e

unfoldable pub base32_encode : Bytes → Bytes
base32_encode [] = []
base32_encode (a ∷ []) = group_chars (group a 0 0 0 0) 2
base32_encode (a ∷ b ∷ []) = group_chars (group a b 0 0 0) 4
base32_encode (a ∷ b ∷ c ∷ []) = group_chars (group a b c 0 0) 5
base32_encode (a ∷ b ∷ c ∷ d ∷ []) = group_chars (group a b c d 0) 7
base32_encode (a ∷ b ∷ c ∷ d ∷ e ∷ bs) = group_chars (group a b c d e) 8 ++ base32_encode bs

-- `strings.ToLower` on ASCII
abbrev pub to_lower : ℕ → ℕ
to_lower c = if leb 65 c && leb c 90 then c + 32 else c

unfoldable pub derive_device_id : (Bytes → Bytes) → Bytes → DeviceId
unfolding base32_encode
derive_device_id sha256 pub_key = map to_lower (base32_encode (take 10 (sha256 pub_key)))

abbrev pub in_alphabet : ℕ → Bool
in_alphabet c = (leb 97 c && leb c 122) || (leb 50 c && leb c 55)

unfoldable pub all_in_alphabet : DeviceId → Bool
all_in_alphabet [] = true
all_in_alphabet (c ∷ d) = let rest = all_in_alphabet d in if in_alphabet c then rest else false

unfoldable pub valid : DeviceId → Bool
unfolding all_in_alphabet
valid d = if length d == device_id_len then all_in_alphabet d else false

-- Groups of `n`, with a hyphen before each but the first; a round takes at least one character.
unfoldable pub hyphenated : ℕ → ℕ → Bool → Bytes → Bytes
hyphenated zero n first s = []
hyphenated (suc fuel) n first [] = []
hyphenated (suc fuel) n first (c ∷ s) =
    let rest = hyphenated fuel n false (drop n (c ∷ s)) in
    (if first then [] else 45 ∷ []) ++ take n (c ∷ s) ++ rest

unfoldable pub fingerprint : DeviceId → Bytes
unfolding hyphenated
fingerprint d = hyphenated (length d) 4 true d
