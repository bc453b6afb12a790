-- ===== src/Identity/Unlock/Justified.antt =====
-- The decrypted key is held exactly while some grant is.
use open_air.Prelude.{
  ℕ, ◌≡◌, ◌⊎◌, inl, inr, refl, sym, subst, Bool, Bool-cases, Option-cases, List, [], ◌∷◌, Bytes,
  none, some, Result-cases, arith,
}
use open_air.Prelude.Maps.{Map, insert, remove}
use open_air.Identity.Types.{DeviceId}
use open_air.Identity.DeviceId.{valid}
use open_air.Identity.KeyFile.{KeyError, wrong_passphrase, KeyCrypto, open_privilege}
use open_air.Identity.Unlock.{
  Grant, UnlockOptions, UnlockState, LockedKey, FileIdentity, throttle_locked, privilege_of, failed,
  granted, expiry_of, drop_expired, wiped_if_unused, expire_locked, unlock_with, unlock, lock,
  lock_peer, unlocked_until, unlocked_peers, sign_owned, begin_owned,
}
use open_air.Identity.Unlock.Calls.{
  begin_owned_state, sign_owned_state, Call, unlock_call, lock_call, sweep_call, peers_call,
  lock_peer_call, until_call, begin_call, sign_call, state_after, run,
}

-- Either nothing is unlocked and there is no key, or something is and there is one.
abbrev pub Justified : UnlockState → Type 0
Justified st =
    ((st.grants ≡ []) × (st.key ≡ none))
    ⊎ ((g : DeviceId × Grant) × (gs : Map Grant) × (k : LockedKey) × (st.grants ≡ g ∷ gs)
        × (st.key ≡ some k))

-- Fewer grants, and the key is wiped with the last one.
wiped_if_unused-Justified :
    (st : UnlockState) (grants : Map Grant)
    → (grants ≡ []) ⊎ ((k : LockedKey) × (st.key ≡ some k))
    → Justified (wiped_if_unused st grants)
wiped_if_unused-Justified st [] h = inl (refl, refl)
wiped_if_unused-Justified st (g ∷ gs) (inl e) = absurd (grind (arith, e))
wiped_if_unused-Justified st (g ∷ gs) (inr (k, e)) = inr (g, gs, k, refl, e)

expire_locked-Justified :
    (now : ℕ) (st : UnlockState) → Justified st → Justified (expire_locked now st)
unfolding expire_locked drop_expired
expire_locked-Justified now st (inl (e, k)) =
    wiped_if_unused-Justified st (drop_expired now st.grants) (inl (rw e refl))
expire_locked-Justified now st (inr (g, gs, k, e, f)) =
    wiped_if_unused-Justified st (drop_expired now st.grants) (inr (k, f))

lock_peer-Justified :
    (target : DeviceId) (st : UnlockState) → Justified st → Justified (lock_peer target st)
unfolding lock_peer remove
lock_peer-Justified target st (inl (e, k)) =
    wiped_if_unused-Justified st (remove target st.grants) (inl (rw e refl))
lock_peer-Justified target st (inr (g, gs, k, e, f)) =
    wiped_if_unused-Justified st (remove target st.grants) (inr (k, f))

failed-Justified :
    (now : ℕ) (e : KeyError) (st : UnlockState) → Justified st → Justified (failed st now e)
failed-Justified now wrong_passphrase st h = h
failed-Justified now e st h = h

granted-Justified :
    (st : UnlockState) (target : DeviceId) (opts : UnlockOptions) (now : ℕ) (k : LockedKey)
    → st.key ≡ some k
    → Justified (granted st target opts now).0
unfolding insert
granted-Justified st target opts now k e =
    inr ((target, expiry_of opts now), remove target st.grants, k, refl, e)

module _ (lib : KeyCrypto) (lock_pages : Bytes → Bool) (i : FileIdentity) where
  unlock_with-Justified :
      (privilege_pub : Bytes) (target : DeviceId) (opts : UnlockOptions) (now : ℕ)
      (st : UnlockState)
      → Justified st
      → Justified (unlock_with lib lock_pages i privilege_pub target opts now st).0
  unfolding unlock_with
  unlock_with-Justified privilege_pub target opts now st h =
      elim (Bool-cases (throttle_locked st now)) [
        | inl wait ↦ rw wait h
        | inr try ↦ elim (Option-cases st.key) [
          | inr (k, held) ↦ rw (try, held) (granted-Justified st target opts now k held)
          | inl sealed ↦
              elim (Result-cases (
                open_privilege lib i.sealed_priv_key privilege_pub opts.passphrase
                  opts.keystore_kek)) [
                    | inr (e, bad) ↦ rw (try, sealed, bad) (failed-Justified now e st h)
                    | inl (priv, good) ↦
                        let k : LockedKey = record { key = priv; locked = lock_pages priv } in
                        rw (try, sealed, good)
                          (granted-Justified (record st { key = some k }) target opts now k refl)
                  ]
        ]
      ]

  unlock-Justified :
      (target : DeviceId) (opts : UnlockOptions) (now : ℕ) (st : UnlockState)
      → Justified st
      → Justified (unlock lib lock_pages i target opts now st).0
  unfolding unlock
  unlock-Justified target opts now st h = elim (Bool-cases (valid target)) [
    | inr bad ↦ rw bad h
    | inl good ↦ elim (Option-cases (privilege_of i)) [
      | inl n ↦ rw (good, n) h
      | inr (p, e) ↦
          rw (good, e)
            (unlock_with-Justified p target opts now (expire_locked now st)
              (expire_locked-Justified now st h))
    ]
  ]

module _ (lib : KeyCrypto) (lock_pages : Bytes → Bool) (sign : Bytes → Bytes → Bytes)
    (i : FileIdentity) where
  expired_or_same :
      (now : ℕ) (st st' : UnlockState)
      → (st' ≡ st) ⊎ (st' ≡ expire_locked now st)
      → Justified st
      → Justified st'
  expired_or_same now st st' (inl e) h = subst Justified (sym e) h
  expired_or_same now st st' (inr e) h = subst Justified (sym e) (expire_locked-Justified now st h)

  state_after-Justified :
      (c : Call) (now : ℕ) (st : UnlockState)
      → Justified st
      → Justified (state_after lib lock_pages sign i c now st)
  unfolding state_after lock unlocked_until unlocked_peers
  state_after-Justified (unlock_call target opts) now st h =
      unlock-Justified lib lock_pages i target opts now st h
  state_after-Justified lock_call now st h = inl (refl, refl)
  state_after-Justified sweep_call now st h = expire_locked-Justified now st h
  state_after-Justified peers_call now st h = expire_locked-Justified now st h
  state_after-Justified (lock_peer_call target) now st h = lock_peer-Justified target st h
  state_after-Justified (until_call target) now st h = expire_locked-Justified now st h
  state_after-Justified (begin_call target) now st h =
      expired_or_same now st (begin_owned i target now st).0 (begin_owned_state i target now st) h
  state_after-Justified (sign_call target cap_id msg_type nonce) now st h =
      expired_or_same now st (sign_owned sign i target cap_id msg_type nonce now st).0
        (sign_owned_state sign i target cap_id msg_type nonce now st) h

  -- Where the decrypted key is held exactly if some peer holds a grant, it is so after any calls
  -- of the unlock surface, in any order and at any times.
  pub run-Justified :
      (calls : List (ℕ × Call)) (st : UnlockState)
      → Justified st
      → Justified (run lib lock_pages sign i calls st)
  unfolding run
  run-Justified [] st h = h
  run-Justified ((now, c) ∷ calls) st h =
      run-Justified calls (state_after lib lock_pages sign i c now st)
        (state_after-Justified c now st h)
