-- ===== src/Session/Convert/Tests.antt =====
-- The conversions' theorems at concrete values.
use open_air.Prelude.{◌≡◌, ◌↔◌, ◌<◌, some}
use open_air.Prelude.Int.{pos}
use open_air.Session.Convert.{
  cap_id_from_wire, trust_level_from_wire, trust_level_to_wire, protection_tier_from_wire,
  protection_tier_to_wire,
}
use open_air.Session.Convert.Laws.{cap_id_wire_iff, trust_level_wire, protection_tier_wire}

fourth_id : (cap_id_from_wire 3 ≡ some (pos 4)) ↔ ((3 < 8) × (pos 4 ≡ pos 4))
fourth_id = (cap_id_wire_iff (pos 4) 3).1

owned_survives : trust_level_from_wire (trust_level_to_wire (pos 2)) ≡ pos 2
owned_survives = (trust_level_wire (pos 2) (pos 0)).0

passphrase_survives : protection_tier_from_wire (protection_tier_to_wire (pos 1)) ≡ pos 1
passphrase_survives = (protection_tier_wire (pos 1) (pos 0)).0
