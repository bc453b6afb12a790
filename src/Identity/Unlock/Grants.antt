-- ===== src/Identity/Unlock/Grants.antt =====
-- What the calls do to the grants: all but an unlock only take some away.
use open_air.Prelude.{
  ℕ, inl, inr, Bool, Bool-cases, Option-cases, [], ◌∷◌, All, Bytes, bytes_eq, some, Result-cases,
}
use open_air.Prelude.Maps.{Map, insert, remove}
use open_air.Identity.Types.{DeviceId}
use open_air.Identity.DeviceId.{valid}
use open_air.Identity.KeyFile.{KeyError, wrong_passphrase, KeyCrypto, open_privilege}
use open_air.Identity.Unlock.{
  Grant, live, UnlockOptions, UnlockState, LockedKey, FileIdentity, throttle_locked, privilege_of,
  failed, granted, expiry_of, drop_expired, wiped_if_unused, expire_locked, unlock_with, unlock,
}

-- A property of every grant survives whatever only takes grants away.
module _ (P : DeviceId × Grant → Type 0) where
  pub All-drop_expired : (now : ℕ) (m : Map Grant) → All P m → All P (drop_expired now m)
  unfolding drop_expired
  All-drop_expired now [] h = h
  All-drop_expired now ((id, g) ∷ m) h = elim (Bool-cases (live now g)) [
    | inl l ↦ rw l (h.0, All-drop_expired now m h.1)
    | inr old ↦ rw old (All-drop_expired now m h.1)
  ]

  pub All-remove : (k : DeviceId) (m : Map Grant) → All P m → All P (remove k m)
  unfolding remove
  All-remove k [] h = h
  All-remove k ((id, g) ∷ m) h = elim (Bool-cases (bytes_eq k id)) [
    | inl same ↦ rw same (All-remove k m h.1)
    | inr other ↦ rw other (h.0, All-remove k m h.1)
  ]

  pub All-wiped : (st : UnlockState) (m : Map Grant) → All P m → All P (wiped_if_unused st m).grants
  All-wiped st [] h = h
  All-wiped st (g ∷ m) h = h

  pub All-expire :
      (now : ℕ) (st : UnlockState) → All P st.grants → All P (expire_locked now st).grants
  unfolding expire_locked
  All-expire now st h = All-wiped st (drop_expired now st.grants) (All-drop_expired now st.grants h)

  All-granted :
      (st : UnlockState) (target : DeviceId) (opts : UnlockOptions) (now : ℕ)
      → P (target, expiry_of opts now)
      → All P st.grants
      → All P (granted st target opts now).0.grants
  unfolding insert
  All-granted st target opts now new h = (new, All-remove target st.grants h)

  All-failed :
      (st : UnlockState) (now : ℕ) (e : KeyError) → All P st.grants → All P (failed st now e).grants
  All-failed st now wrong_passphrase h = h
  All-failed st now e h = h

  module _ (lib : KeyCrypto) (lock_pages : Bytes → Bool) (i : FileIdentity) where
    All-unlock_with :
        (privilege_pub : Bytes) (target : DeviceId) (opts : UnlockOptions) (now : ℕ)
        (st : UnlockState)
        → P (target, expiry_of opts now)
        → All P st.grants
        → All P (unlock_with lib lock_pages i privilege_pub target opts now st).0.grants
    unfolding unlock_with
    All-unlock_with privilege_pub target opts now st new h =
        elim (Bool-cases (throttle_locked st now)) [
          | inl wait ↦ rw wait h
          | inr try ↦ elim (Option-cases st.key) [
            | inr (k, held) ↦ rw (try, held) (All-granted st target opts now new h)
            | inl sealed ↦
                elim (Result-cases (
                  open_privilege lib i.sealed_priv_key privilege_pub opts.passphrase
                    opts.keystore_kek)) [
                      | inr (e, bad) ↦ rw (try, sealed, bad) (All-failed st now e h)
                      | inl (priv, good) ↦
                          let k : LockedKey = record { key = priv; locked = lock_pages priv } in
                          rw (try, sealed, good)
                            (All-granted (record st { key = some k }) target opts now new h)
                    ]
          ]
        ]

    pub All-unlock :
        (target : DeviceId) (opts : UnlockOptions) (now : ℕ) (st : UnlockState)
        → P (target, expiry_of opts now)
        → All P st.grants
        → All P (unlock lib lock_pages i target opts now st).0.grants
    unfolding unlock
    All-unlock target opts now st new h = elim (Bool-cases (valid target)) [
      | inr bad ↦ rw bad h
      | inl good ↦ elim (Option-cases (privilege_of i)) [
        | inl n ↦ rw (good, n) h
        | inr (p, e) ↦
            rw (good, e)
              (All-unlock_with p target opts now (expire_locked now st) new (All-expire now st h))
      ]
    ]
