-- ===== src/Session/Auth/Samples.antt =====
-- Test data: a device that is unlocked for the phone, and a toy signature scheme, in which a signature
-- is the end of what it signs.
use open_air.Prelude.{
  ◌^◌, ◌*◌, ◌≡◌, refl, Bool, true, [], ◌∷◌, replicate, drop, Bytes, bytes_eq, none, some,
}
use open_air.Prelude.Int.{pos}
use open_air.Prelude.Maps.{lookup}
use open_air.Identity.DeviceId.{valid, all_in_alphabet}
use open_air.Identity.Samples.{phone_id}
use open_air.Identity.OwnedProof.{signed_fields, owned_signing_input}
use open_air.Prelude.{◌*◌, ◌^◌, drop, ok}
use open_air.Identity.Types.{tier_passphrase}
use open_air.Identity.Unlock.{
  LockedKey, UnlockState, FileIdentity, privilege_of, drop_expired, expire_locked, sign_owned,
}

abbrev pub toy_verify : Bytes → Bytes → Bytes → Bool
toy_verify key input signature = bytes_eq signature (drop 11 input)

abbrev pub privilege_key : Bytes
privilege_key = replicate 32 9

-- The device that asks, unlocked for the phone for good.
abbrev pub toy_sign : Bytes → Bytes → Bytes
toy_sign key input = drop 11 input

abbrev pub asking : FileIdentity
asking = record {
  tier = tier_passphrase;
  privilege_pub = some privilege_key;
  sealed_priv_key = none;
}

abbrev pub kept_key : LockedKey
kept_key = record { key = replicate 64 3; locked = true }

abbrev pub unlocked : UnlockState
unlocked = record {
  key = some kept_key;
  grants = (phone_id, none) ∷ [];
  failures = 0;
  next_retry = none;
}

abbrev pub fresh_nonce : Bytes
fresh_nonce = replicate 32 5

abbrev pub made : Bytes
made = drop 11 (signed_fields phone_id 3 7 fresh_nonce (pos 100000))

pub stays_unlocked : (expire_locked (100 * 10 ^ 9) unlocked).key ≡ some kept_key
unfolding expire_locked drop_expired
stays_unlocked = refl

pub signs :
    (sign_owned toy_sign asking phone_id 3 7 fresh_nonce (100 * 10 ^ 9) unlocked).1
    ≡ ok (pos 100000, made)
unfolding sign_owned expire_locked drop_expired privilege_of lookup bytes_eq owned_signing_input
    valid all_in_alphabet
signs = refl
