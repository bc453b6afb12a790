-- ===== src/Identity/Samples.antt =====
-- Test data: a digest of one fixed value, a phone and its record, and file systems that work or fail.
use open_air.Prelude.{
  ℕ, ◌≡◌, inl, inr, refl, sym, true, Bool-cases, [], ◌∷◌, Option, none, some, replicate, Bytes,
  bytes_eq, bytes_eq→eq,
}
use open_air.Prelude.Int.{pos}
use open_air.Prelude.Maps.{lookup}
use open_air.Identity.Types.{level_trusted, tier_passphrase, DeviceId, Peer}
use open_air.Identity.DeviceId.{derive_device_id, base32_encode, valid, all_in_alphabet}
use open_air.Identity.TrustStore.{TrustStore, TrustStoreFile, get, validate_peer}
use open_air.Identity.TrustStore.Laws.{AllValid}

abbrev pub sha256 : Bytes → Bytes
sha256 m = replicate 32 0

-- `aaaaaaaaaaaaaaaa`
abbrev pub phone_id : DeviceId
phone_id = replicate 16 97

abbrev pub phone_key : Bytes
phone_key = replicate 32 5

abbrev pub phone : Peer
phone = record {
  device_id = phone_id;
  identity_public_key = phone_key;
  privilege_public_key = [];
  display_name = 112 ∷ [];
  platform = [];
  level = level_trusted;
  granted_capabilities = [];
  auth_policy = [];
  token_granted_at = pos 0;
  protection_tier = tier_passphrase;
  created_at = pos 0;
  last_seen = pos 0;
}

abbrev pub one_peer : TrustStore
one_peer = (phone_id, phone) ∷ []

abbrev pub write_ok : TrustStoreFile → Option ℕ
write_ok f = none

abbrev pub disk_full : TrustStoreFile → Option ℕ
disk_full f = some 28

pub phone-valid : validate_peer sha256 phone ≡ true
unfolding validate_peer derive_device_id base32_encode valid all_in_alphabet bytes_eq
phone-valid = refl

pub one_peer-AllValid : AllValid sha256 one_peer
unfolding get lookup
one_peer-AllValid id = elim (Bool-cases (bytes_eq id phone_id)) [
  | inl e ↦ inr (phone, rw e refl, sym (bytes_eq→eq id phone_id e), phone-valid)
  | inr e ↦ inl (rw e refl)
]
