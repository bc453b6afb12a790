-- ===== src/Identity/Types.antt =====
-- internal/identity/types.go: the trust ladder, the protection tiers and the peer record.
use open_air.Prelude.{Bytes}
use open_air.Prelude.Int.{ℤ, pos}

-- `type TrustLevel int`: a stored record may hold any integer.
abbrev pub TrustLevel : Type 0
TrustLevel = ℤ

abbrev pub level_unpaired : TrustLevel
level_unpaired = pos 0

abbrev pub level_trusted : TrustLevel
level_trusted = pos 1

abbrev pub level_owned : TrustLevel
level_owned = pos 2

abbrev pub ProtectionTier : Type 0
ProtectionTier = ℤ

abbrev pub tier_none : ProtectionTier
tier_none = pos 0

abbrev pub tier_passphrase : ProtectionTier
tier_passphrase = pos 1

abbrev pub tier_keystore : ProtectionTier
tier_keystore = pos 2

-- A device id is its characters.
abbrev pub DeviceId : Type 0
DeviceId = Bytes

pub record Peer : Type 0 where
  pub device_id : DeviceId
  pub identity_public_key : Bytes
  pub privilege_public_key : Bytes
  pub display_name : Bytes
  pub platform : Bytes
  pub level : TrustLevel
  pub granted_capabilities : Bytes
  pub auth_policy : Bytes
  pub token_granted_at : ℤ
  pub protection_tier : ProtectionTier
  pub created_at : ℤ
  pub last_seen : ℤ
