-- ===== src/Session/Convert.antt =====
-- internal/session/convert.go: wire enums against the program's own. Both are Go integers that a
-- peer or a file may set to any value, so both are integers here.
pub mod Laws
mod Tests
use open_air.Prelude.{ℕ, ◌+◌, ◌-◌, ◌%◌, Bool, ◌&&◌, ◌||◌, Option, none, some, if◌then◌else◌, leb}
use open_air.Prelude.Int.{ℤ, pos, negsuc, eqb_ℤ, leb_ℤ}
use open_air.Identity.Types.{
  TrustLevel, level_unpaired, level_trusted, level_owned, ProtectionTier, tier_none,
  tier_passphrase, tier_keystore,
}

-- `v1.CapabilityId`: the names of internal/wire/openair/v1/common.pb.go are those of 0 to 8.
abbrev pub capability_id_unspecified : ℤ
capability_id_unspecified = pos 0

abbrev pub capability_id_known : ℤ → Bool
capability_id_known id = leb_ℤ (pos 0) id && leb_ℤ id (pos 8)

-- `byte(int32(id) - 1)`; a negative `id` does not get here.
byte_pred : ℤ → ℕ
byte_pred (pos n) = (n + 256 - 1) % 256
byte_pred (negsuc n) = (256 - (n + 2) % 256) % 256

unfoldable pub cap_id_to_wire : ℤ → Option ℕ
unfolding byte_pred
cap_id_to_wire id =
    if eqb_ℤ id capability_id_unspecified
    then none
    else if capability_id_known id
    then some (byte_pred id)
    else none

unfoldable pub cap_id_from_wire : ℕ → Option ℤ
cap_id_from_wire cap_id =
    let id = pos (cap_id + 1) in
    if capability_id_known id
    then if eqb_ℤ id capability_id_unspecified then none else some id
    else none

abbrev pub wire_tier_unspecified : ℤ
wire_tier_unspecified = pos 0

abbrev pub wire_tier_keystore : ℤ
wire_tier_keystore = pos 1

abbrev pub wire_tier_passphrase : ℤ
wire_tier_passphrase = pos 2

abbrev pub wire_tier_none : ℤ
wire_tier_none = pos 3

unfoldable pub protection_tier_to_wire : ProtectionTier → ℤ
protection_tier_to_wire t =
    if eqb_ℤ t tier_keystore
    then wire_tier_keystore
    else if eqb_ℤ t tier_passphrase
    then wire_tier_passphrase
    else if eqb_ℤ t tier_none
    then wire_tier_none
    else wire_tier_unspecified

unfoldable pub protection_tier_from_wire : ℤ → ProtectionTier
protection_tier_from_wire t =
    if eqb_ℤ t wire_tier_keystore
    then tier_keystore
    else if eqb_ℤ t wire_tier_passphrase
    then tier_passphrase
    else tier_none

abbrev pub wire_level_unspecified : ℤ
wire_level_unspecified = pos 0

abbrev pub wire_level_unpaired : ℤ
wire_level_unpaired = pos 1

abbrev pub wire_level_trusted : ℤ
wire_level_trusted = pos 2

abbrev pub wire_level_owned : ℤ
wire_level_owned = pos 3

pub trust_level_to_wire : TrustLevel → ℤ
trust_level_to_wire l =
    if eqb_ℤ l level_unpaired
    then wire_level_unpaired
    else if eqb_ℤ l level_trusted
    then wire_level_trusted
    else if eqb_ℤ l level_owned
    then wire_level_owned
    else wire_level_unspecified

pub trust_level_from_wire : ℤ → TrustLevel
trust_level_from_wire l =
    if eqb_ℤ l wire_level_trusted
    then level_trusted
    else if eqb_ℤ l wire_level_owned
    then level_owned
    else level_unpaired
