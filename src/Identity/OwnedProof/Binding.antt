-- ===== src/Identity/OwnedProof/Binding.antt =====
-- What a signature over the signing input binds: every field that the input was built from.
use open_air.Prelude.{
  ℕ, ◌^◌, ◌<◌, ◌≡◌, inl, inr, refl, sym, ap, ◌∙◌, true, Bool-cases, [], ◌∷◌, ◌==◌, ==_iff, length,
  Bytes, put_le, get_le, get_le-put_le, length-put_le, append_injective, some, arith,
}
use open_air.Prelude.Int.{ℤ, pos, negsuc}
use open_air.Identity.Types.{DeviceId}
use open_air.Identity.DeviceId.{valid}
use open_air.Identity.OwnedProof.{
  owned_context, owned_nonce_len, to_uint64, signed_fields, owned_signing_input,
}

-- The values of an int64.
abbrev pub IsInt64 : ℤ → Type 0
IsInt64 (pos n) = n < 2 ^ 63
IsInt64 (negsuc n) = n < 2 ^ 63

to_uint64_injective : (a b : ℤ) → IsInt64 a → IsInt64 b → to_uint64 a ≡ to_uint64 b → a ≡ b
to_uint64_injective (pos m) (pos n) h k e = ap pos (omega arith)
to_uint64_injective (negsuc m) (negsuc n) h k e = ap negsuc (omega arith)
to_uint64_injective (pos m) (negsuc n) h k e = absurd (omega arith)
to_uint64_injective (negsuc m) (pos n) h k e = absurd (omega arith)

to_uint64_bound : (a : ℤ) → to_uint64 a < 2 ^ 64
to_uint64_bound (pos n) = omega arith
to_uint64_bound (negsuc n) = omega arith

valid-length : (d : DeviceId) → valid d ≡ true → length d ≡ 16
unfolding valid
valid-length d h = ground (arith, h)

pub signed :
    (t : DeviceId) (c m : ℕ) (n : Bytes) (i : ℤ) (x : Bytes)
    → owned_signing_input t c m n i ≡ some x
    → (length t ≡ 16) × (length n ≡ 32) × (signed_fields t c m n i ≡ x)
unfolding owned_signing_input
signed t c m n i x e = elim (Bool-cases (valid t)) [
  | inr bad ↦ absurd (grind (arith, rw bad at e))
  | inl good ↦ elim (Bool-cases (length n == owned_nonce_len)) [
    | inr bad ↦ absurd (grind (arith, rw (good, bad) at e))
    | inl fits ↦
        let whole : some (signed_fields t c m n i) ≡ some x = rw (good, fits) at e in
        (valid-length t good, (==_iff (length n) owned_nonce_len).0 fits, cc)
  ]
]

-- Two signing inputs are the same only for the same target, capability, message type, nonce and
-- time of issue, where the message types are uint16s and the times int64s.
pub owned_signing_input_binding :
    (t t' : DeviceId) (c c' m m' : ℕ) (n n' : Bytes) (i i' : ℤ) (x : Bytes)
    → m < 2 ^ 16
    → m' < 2 ^ 16
    → IsInt64 i
    → IsInt64 i'
    → owned_signing_input t c m n i ≡ some x
    → owned_signing_input t' c' m' n' i' ≡ some x
    → (t ≡ t') × (c ≡ c') × (m ≡ m') × (n ≡ n') × (i ≡ i')
owned_signing_input_binding t t' c c' m m' n n' i i' x hm hm' hi hi' e e' =
    let (lt, ln, s) = signed t c m n i x e in
    let (lt', ln', s') = signed t' c' m' n' i' x e' in
    let (_, rest₀) = append_injective owned_context _ owned_context _ refl (s ∙ sym s') in
    let (same_target, rest₁) = append_injective t _ t' _ (lt ∙ sym lt') rest₀ in
    let (same_cap, rest₂) = append_injective (c ∷ []) _ (c' ∷ []) _ refl rest₁ in
    let widths = length-put_le 2 m ∙ sym (length-put_le 2 m') in
    let (type_bytes, rest₃) = append_injective (put_le 2 m) _ (put_le 2 m') _ widths rest₂ in
    let (same_nonce, time_bytes) = append_injective n _ n' _ (ln ∙ sym ln') rest₃ in
    (
      same_target,
      cc,
      sym (get_le-put_le 2 m hm) ∙ ap get_le type_bytes ∙ get_le-put_le 2 m' hm',
      same_nonce,
      to_uint64_injective i i' hi hi' (
          sym (get_le-put_le 8 (to_uint64 i) (to_uint64_bound i))
          ∙ ap get_le time_bytes
          ∙ get_le-put_le 8 (to_uint64 i') (to_uint64_bound i')),
    )
