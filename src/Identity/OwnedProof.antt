-- ===== src/Identity/OwnedProof.antt =====
-- internal/identity/identity.go: the bytes that an Owned-level proof signs.
pub mod Binding
mod Tests
use open_air.Prelude.{
  ℕ, ◌+◌, ◌-◌, ◌%◌, ◌^◌, [], ◌∷◌, ◌++◌, not, ◌==◌, if◌then◌else◌, length, Bytes, put_le, Option,
  none, some,
}
use open_air.Prelude.Int.{ℤ, pos, negsuc}
use open_air.Identity.Types.{DeviceId}
use open_air.Identity.DeviceId.{valid}

-- "openair-owned-v1"
abbrev pub owned_context : Bytes
owned_context =
    111 ∷ 112 ∷ 101 ∷ 110 ∷ 97 ∷ 105 ∷ 114 ∷ 45 ∷ 111 ∷ 119 ∷ 110 ∷ 101 ∷ 100 ∷ 45 ∷ 118 ∷ 49 ∷ []

abbrev pub owned_nonce_len : ℕ
owned_nonce_len = 32

-- `uint64(i)` of an int64
abbrev pub to_uint64 : ℤ → ℕ
to_uint64 (pos n) = n % 2 ^ 64
to_uint64 (negsuc n) = 2 ^ 64 - 1 - n % 2 ^ 64

abbrev pub signed_fields : DeviceId → ℕ → ℕ → Bytes → ℤ → Bytes
signed_fields target cap_id msg_type nonce issued_at =
    owned_context
    ++ (target
        ++ ((cap_id ∷ []) ++ (put_le 2 msg_type ++ (nonce ++ put_le 8 (to_uint64 issued_at)))))

unfoldable pub owned_signing_input : DeviceId → ℕ → ℕ → Bytes → ℤ → Option Bytes
owned_signing_input target cap_id msg_type nonce issued_at =
    if not (valid target)
    then none
    else if not (length nonce == owned_nonce_len)
    then none
    else some (signed_fields target cap_id msg_type nonce issued_at)
