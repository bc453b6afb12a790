-- ===== src/Identity/Unlock/Tests.antt =====
-- A phone that is unlocked, used and left alone, with the toy cipher of the containers.
use open_air.Prelude.{
  ℕ, ◌+◌, ◌*◌, ◌<◌, ◌≤◌, ◌≡◌, ◌⊎◌, inl, refl, ap, All, Bool, true, false, List, [], ◌∷◌, ltb,
  if◌then◌else◌, replicate, drop, slice, put_le, get_le, Bytes, bytes_eq, none, some, ok, err,
  arith,
}
use open_air.Prelude.Int.{pos}
use open_air.Prelude.Maps.{lookup, insert, remove}
use open_air.Identity.Types.{DeviceId, tier_passphrase}
use open_air.Identity.DeviceId.{valid, all_in_alphabet}
use open_air.Identity.Samples.{phone_id}
use open_air.Identity.OwnedProof.{signed_fields, owned_signing_input}
use open_air.Identity.KeyFile.{
  parse_sealed_key_file, checked, wrong_passphrase, kek_of, key_of_plaintext, open_sealed,
  open_privilege,
}
use open_air.Identity.KeyFile.Samples.{toy, secret, passphrase, sealed}
use open_air.Identity.Unlock.{
  second, throttle_step, throttle_delay, throttle_ceiling, max_in_flight_grace, Grant, live,
  UnlockOptions, UnlockState, LockedKey, key_locked, throttled, grace_expired, not_opened,
  FileIdentity, locked_state, privilege_of, drop_expired, expire_locked, unlock_with, unlock,
  unlocked_until, sign_owned, Operation, begin_owned, check,
}
use open_air.Identity.Unlock.Calls.{
  Call, unlock_call, sign_call, sweep_call, begin_call, lock_peer_call, run,
}
use open_air.Identity.Unlock.Justified.{Justified, run-Justified}
use open_air.Identity.Unlock.Own.{Spares}
use open_air.Identity.Unlock.Expiry.{unlock_lapses, sign_owned-live, begin_owned-check}
use open_air.Identity.Unlock.Retry.{unlock_live, unlock_throttled}

abbrev device : FileIdentity
device = record {
  tier = tier_passphrase;
  privilege_pub = some (replicate 32 2);
  sealed_priv_key = some sealed;
}

abbrev pages : Bytes → Bool
pages key = true

abbrev toy_sign : Bytes → Bytes → Bytes
toy_sign key input = drop 11 input

abbrev opts : UnlockOptions
opts = record { passphrase = passphrase; keystore_kek = []; policy = []; lifetime = pos 0 }

abbrev wrong_opts : UnlockOptions
wrong_opts = record opts { passphrase = [] }

-- Five minutes past the start, and the end of the six hours.
abbrev at_five : ℕ
at_five = 300 * second

abbrev at_end : ℕ
at_end = 21900 * second

abbrev other_id : DeviceId
other_id = replicate 16 98

abbrev nonce : Bytes
nonce = replicate 32 4

abbrev held_state : UnlockState
held_state = record {
  key = some (record { key = secret; locked = true });
  grants = (phone_id, some at_end) ∷ [];
  failures = 0;
  next_retry = none;
}

opens : open_privilege toy (some sealed) (replicate 32 2) passphrase [] ≡ ok secret
unfolding open_privilege parse_sealed_key_file checked open_sealed kek_of key_of_plaintext bytes_eq
    put_le get_le slice
opens = refl

holds_key : privilege_of device ≡ some (replicate 32 2)
unfolding privilege_of
holds_key = refl

phone-valid : valid phone_id ≡ true
unfolding valid all_in_alphabet
phone-valid = refl

unlocks :
    unlock toy pages device phone_id opts at_five locked_state ≡ (held_state, ok (some at_end))
unfolding unlock unlock_with expire_locked drop_expired privilege_of valid all_in_alphabet insert
    remove lookup open_privilege parse_sealed_key_file checked open_sealed kek_of key_of_plaintext
    bytes_eq put_le get_le slice
unlocks = refl

abbrev busy : List (ℕ × Call)
busy =
    (at_five + 5, sign_call phone_id 3 7 nonce)
    ∷ (at_five + 6, unlock_call other_id opts)
    ∷ (at_five + 7, begin_call phone_id)
    ∷ (at_five + 8, lock_peer_call other_id)
    ∷ (at_end, sweep_call)
    ∷ []

busy-Spares : All (Spares phone_id) busy
unfolding bytes_eq
busy-Spares = (tt, (refl, (tt, (tt, (tt, tt)))))

run-Justified_example : Justified (run toy pages toy_sign device busy locked_state)
run-Justified_example = run-Justified toy pages toy_sign device busy locked_state (inl (refl, refl))

unlock_lapses_example :
    ((unlocked_until phone_id at_end (
        run toy pages toy_sign device busy
          (unlock toy pages device phone_id opts at_five locked_state).0)).1
      ≡ none)
    × ((sign_owned toy_sign device phone_id 3 7 nonce at_end (
          run toy pages toy_sign device busy
            (unlock toy pages device phone_id opts at_five locked_state).0)).1
        ≡ err key_locked)
    × ((begin_owned device phone_id at_end (
          run toy pages toy_sign device busy
            (unlock toy pages device phone_id opts at_five locked_state).0)).1
        ≡ err key_locked)
unlock_lapses_example =
    unlock_lapses toy pages toy_sign device phone_id opts at_five at_end at_end locked_state busy
      (replicate 32 2) 3 7 nonce holds_key (ap (λ r. r.1) unlocks) busy-Spares (omega arith)

abbrev input : Bytes
input = signed_fields phone_id 3 7 nonce (pos 300000)

signs :
    (sign_owned toy_sign device phone_id 3 7 nonce at_five held_state).1
    ≡ ok (pos 300000, drop 11 input)
unfolding sign_owned expire_locked drop_expired privilege_of lookup bytes_eq owned_signing_input
    valid all_in_alphabet
signs = refl

sign_owned_live_test :
    (g : Grant) × (k : LockedKey) × (i : Bytes) × (lookup phone_id
        (expire_locked at_five held_state).grants
      ≡ some g)
    × (live at_five g ≡ true)
    × ((expire_locked at_five held_state).key ≡ some k)
    × (pos 300000 ≡ pos 300000)
    × (owned_signing_input phone_id 3 7 nonce (pos 300000) ≡ some i)
    × (drop 11 input ≡ toy_sign k.key i)
sign_owned_live_test =
    sign_owned-live device phone_id toy_sign 3 7 at_five nonce held_state (pos 300000)
      (drop 11 input) signs

abbrev begun : Operation
begun = record { target = phone_id; deadline = some (at_end + max_in_flight_grace); ended = false }

begins : (begin_owned device phone_id at_five held_state).1 ≡ ok begun
unfolding begin_owned expire_locked drop_expired privilege_of lookup bytes_eq
begins = refl

begin_owned_check_test :
    (g : Grant) × (lookup phone_id (expire_locked at_five held_state).grants ≡ some g)
    × (((g ≡ none) × ((t : ℕ) → check begun t ≡ none))
        ⊎ ((expires : ℕ) × (g ≡ some expires)
            × (at_five < expires)
            × ((t : ℕ)
                → check begun t
                  ≡ (if ltb (expires + max_in_flight_grace) t then some grace_expired else none))))
begin_owned_check_test = begin_owned-check device phone_id at_five held_state begun begins

abbrev tries : List (ℕ × Call)
tries =
    (1, unlock_call phone_id wrong_opts)
    ∷ (2, unlock_call phone_id wrong_opts)
    ∷ (3, unlock_call phone_id wrong_opts)
    ∷ []

unlock_live_example :
    (unlock toy pages device phone_id opts
      (40 * second)
      (run toy pages toy_sign device tries locked_state)).1
    ≡ ok (some (21640 * second))
unfolding bytes_eq
unlock_live_example =
    unlock_live toy pages device toy_sign 3 (40 * second) tries (replicate 32 2) secret phone_id
      opts (omega arith, (omega arith, (omega arith, tt))) (omega arith) phone-valid holds_key opens

abbrev third_time : UnlockState
third_time = record locked_state { failures = 2 }

fails :
    (unlock toy pages device phone_id wrong_opts at_five third_time).1
    ≡ err (not_opened wrong_passphrase)
unfolding unlock unlock_with expire_locked drop_expired privilege_of valid all_in_alphabet insert
    remove lookup open_privilege parse_sealed_key_file checked open_sealed kek_of key_of_plaintext
    bytes_eq put_le get_le slice
fails = refl

unlock_throttled_test :
    (throttle_step ≤ throttle_delay 3)
    × (throttle_delay 3 ≤ throttle_ceiling)
    × ((unlock toy pages device phone_id opts
          (at_five + 1)
          (unlock toy pages device phone_id wrong_opts at_five third_time).0).1
        ≡ err throttled)
unlock_throttled_test =
    unlock_throttled toy pages device phone_id phone_id wrong_opts opts at_five (at_five + 1)
      third_time fails (omega arith) phone-valid (omega arith)
