-- ===== src/Session/Convert/Laws.antt =====
-- The conversions of internal/session/convert.go lose nothing that is known, and what they do not
-- know they degrade to the weakest value.
use open_air.Prelude.{Bool, ◌&&◌, if◌then◌else◌, ℕ, ◌+◌, ◌<◌, ◌≡◌, ◌⊎◌, ◌↔◌, some, arith}
use open_air.Prelude.Int.{ℤ, pos, negsuc, leb_ℤ}
use open_air.Identity.Types.{
  level_unpaired, level_trusted, level_owned, tier_none, tier_passphrase, tier_keystore,
}
use open_air.Session.Convert.{
  cap_id_to_wire, cap_id_from_wire, protection_tier_to_wire, protection_tier_from_wire,
  trust_level_to_wire, trust_level_from_wire, wire_level_trusted, wire_level_owned,
  wire_tier_keystore, wire_tier_passphrase,
}

-- Capability ids: the two conversions are inverse to one another, and the pairs that they connect
-- are the wire bytes 0 to 7 with the ids 1 to 8.
pub cap_id_wire_iff :
    (id : ℤ) (c : ℕ)
    → ((cap_id_to_wire id ≡ some c) ↔ (cap_id_from_wire c ≡ some id))
      × ((cap_id_from_wire c ≡ some id) ↔ ((c < 8) × (id ≡ pos (c + 1))))
unfolding cap_id_to_wire cap_id_from_wire
cap_id_wire_iff (pos n) c =
    ((λ h. ground arith, λ h. ground arith), (λ h. ground arith, λ h. ground arith))
cap_id_wire_iff (negsuc n) c =
    ((λ h. ground arith, λ h. ground arith), (λ h. ground arith, λ h. ground arith))

-- A value of the three that the program's ladders have.
abbrev pub on_ladder : ℤ → Bool
on_ladder l = leb_ℤ (pos 0) l && leb_ℤ l (pos 2)

-- The three trust levels survive the wire, any other level comes back as unpaired, and a wire value
-- is read as unpaired unless it is the value of trusted or of owned.
pub trust_level_wire :
    (l w : ℤ)
    → (trust_level_from_wire (trust_level_to_wire l) ≡ (if on_ladder l then l else level_unpaired))
      × (((w ≡ wire_level_trusted) × (trust_level_from_wire w ≡ level_trusted))
          ⊎ ((w ≡ wire_level_owned) × (trust_level_from_wire w ≡ level_owned))
          ⊎ (trust_level_from_wire w ≡ level_unpaired))
unfolding trust_level_from_wire trust_level_to_wire
trust_level_wire l w = (ground arith, ground arith)

-- The three protection tiers survive the wire, although the wire numbers them the other way round;
-- any other tier comes back as no protection, and a wire value is read as no protection unless it is
-- the value of keystore or of passphrase.
pub protection_tier_wire :
    (t w : ℤ)
    → (protection_tier_from_wire (protection_tier_to_wire t)
        ≡ (if on_ladder t then t else tier_none))
      × (((w ≡ wire_tier_keystore) × (protection_tier_from_wire w ≡ tier_keystore))
          ⊎ ((w ≡ wire_tier_passphrase) × (protection_tier_from_wire w ≡ tier_passphrase))
          ⊎ (protection_tier_from_wire w ≡ tier_none))
unfolding protection_tier_from_wire protection_tier_to_wire
protection_tier_wire t w = (ground arith, ground arith)
