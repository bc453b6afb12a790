-- ===== src/Identity/Unlock/Throttle.antt =====
-- Failed passphrases: how long the next try has to wait, and that it need not wait longer.
use open_air.Prelude.{
  ℕ, suc, ◌+◌, ◌≤◌, ◌<◌, ◌≡◌, ◌⊎◌, inl, inr, refl, sym, subst, ◌∙◌, Bool, Bool-cases, Option-cases,
  List, [], ◌∷◌, All, Bytes, none, some, Result-cases, arith,
}
use open_air.Prelude.Maps.{Map}
use open_air.Identity.Types.{DeviceId}
use open_air.Identity.DeviceId.{valid}
use open_air.Identity.KeyFile.{KeyError, wrong_passphrase, KeyCrypto, open_privilege}
use open_air.Identity.Unlock.{
  throttle_after, throttle_step, throttle_ceiling, throttle_delay, Grant, UnlockOptions,
  UnlockState, FileIdentity, throttle_locked, privilege_of, failed, drop_expired, wiped_if_unused,
  expire_locked, unlock_with, unlock, lock, lock_peer, unlocked_until, unlocked_peers, sign_owned,
  begin_owned,
}
use open_air.Prelude.Maps.{remove}
use open_air.Identity.Unlock.Calls.{
  begin_owned_state, sign_owned_state, Call, unlock_call, lock_call, sweep_call, peers_call,
  lock_peer_call, until_call, begin_call, sign_call, state_after, run,
}

-- From the third failure on there is a delay, of two to thirty seconds.
pub throttle_delay_bounds :
    (failures : ℕ)
    → (throttle_delay failures ≤ throttle_ceiling)
      × ((failures < throttle_after) ⊎ (throttle_step ≤ throttle_delay failures))
throttle_delay_bounds failures = ground arith

wiped_throttle :
    (st : UnlockState) (m : Map Grant)
    → ((wiped_if_unused st m).failures ≡ st.failures)
      × ((wiped_if_unused st m).next_retry ≡ st.next_retry)
wiped_throttle st [] = (refl, refl)
wiped_throttle st (g ∷ m) = (refl, refl)

pub expire_throttle :
    (now : ℕ) (st : UnlockState)
    → ((expire_locked now st).failures ≡ st.failures)
      × ((expire_locked now st).next_retry ≡ st.next_retry)
unfolding expire_locked
expire_throttle now st = wiped_throttle st (drop_expired now st.grants)

-- The next try is due by thirty seconds after `T`.
abbrev pub Due : ℕ → UnlockState → Type 0
Due T st =
    (st.next_retry ≡ none) ⊎ ((r : ℕ) × (st.next_retry ≡ some r) × (r ≤ T + throttle_ceiling))

pub Due-same :
    (T : ℕ) (st st' : UnlockState) → st'.next_retry ≡ st.next_retry → Due T st → Due T st'
Due-same T st st' e (inl n) = inl (e ∙ n)
Due-same T st st' e (inr (r, h, le)) = inr (r, e ∙ h, le)

failed-Due :
    (T now : ℕ) (st : UnlockState) (e : KeyError) → now ≤ T → Due T st → Due T (failed st now e)
failed-Due T now st wrong_passphrase le h =
    let d = (throttle_delay_bounds (suc st.failures)).0 in
    inr (now + throttle_delay (suc st.failures), refl, omega arith)
failed-Due T now st e le h = h

module _ (lib : KeyCrypto) (lock_pages : Bytes → Bool) (i : FileIdentity) where
  unlock_with-Due :
      (T : ℕ) (privilege_pub : Bytes) (target : DeviceId) (opts : UnlockOptions) (now : ℕ)
      (st : UnlockState)
      → now ≤ T
      → Due T st
      → Due T (unlock_with lib lock_pages i privilege_pub target opts now st).0
  unfolding unlock_with
  unlock_with-Due T privilege_pub target opts now st le h =
      elim (Bool-cases (throttle_locked st now)) [
        | inl wait ↦ rw wait h
        | inr try ↦ elim (Option-cases st.key) [
          | inr (k, held) ↦ rw (try, held) (inl refl)
          | inl sealed ↦
              elim (Result-cases (
                open_privilege lib i.sealed_priv_key privilege_pub opts.passphrase
                  opts.keystore_kek)) [
                    | inr (e, bad) ↦ rw (try, sealed, bad) (failed-Due T now st e le h)
                    | inl (priv, good) ↦ rw (try, sealed, good) (inl refl)
                  ]
        ]
      ]

  unlock-Due :
      (T : ℕ) (target : DeviceId) (opts : UnlockOptions) (now : ℕ) (st : UnlockState)
      → now ≤ T
      → Due T st
      → Due T (unlock lib lock_pages i target opts now st).0
  unfolding unlock
  unlock-Due T target opts now st le h = elim (Bool-cases (valid target)) [
    | inr bad ↦ rw bad h
    | inl good ↦ elim (Option-cases (privilege_of i)) [
      | inl n ↦ rw (good, n) h
      | inr (p, e) ↦
          rw (good, e)
            (unlock_with-Due T p target opts now (expire_locked now st) le
              (Due-same T st (expire_locked now st) (expire_throttle now st).1 h))
    ]
  ]

-- A call at `T` or before.
abbrev pub By : ℕ → ℕ × Call → Type 0
By T (now, c) = now ≤ T

module _ (lib : KeyCrypto) (lock_pages : Bytes → Bool) (sign : Bytes → Bytes → Bytes)
    (i : FileIdentity) where
  expired_or_same :
      (T now : ℕ) (st st' : UnlockState)
      → (st' ≡ st) ⊎ (st' ≡ expire_locked now st)
      → Due T st
      → Due T st'
  expired_or_same T now st st' (inl e) h = subst (Due T) (sym e) h
  expired_or_same T now st st' (inr e) h =
      subst (Due T) (sym e) (Due-same T st (expire_locked now st) (expire_throttle now st).1 h)

  state_after-Due :
      (T : ℕ) (c : Call) (now : ℕ) (st : UnlockState)
      → now ≤ T
      → Due T st
      → Due T (state_after lib lock_pages sign i c now st)
  unfolding state_after lock lock_peer unlocked_until unlocked_peers
  state_after-Due T (unlock_call t opts) now st le h =
      unlock-Due lib lock_pages i T t opts now st le h
  state_after-Due T lock_call now st le h = h
  state_after-Due T sweep_call now st le h =
      Due-same T st (expire_locked now st) (expire_throttle now st).1 h
  state_after-Due T peers_call now st le h =
      Due-same T st (expire_locked now st) (expire_throttle now st).1 h
  state_after-Due T (lock_peer_call t) now st le h =
      Due-same T st (wiped_if_unused st (remove t st.grants))
        (wiped_throttle st (remove t st.grants)).1 h
  state_after-Due T (until_call t) now st le h =
      Due-same T st (expire_locked now st) (expire_throttle now st).1 h
  state_after-Due T (begin_call t) now st le h =
      expired_or_same T now st (begin_owned i t now st).0 (begin_owned_state i t now st) h
  state_after-Due T (sign_call t cap_id msg_type nonce) now st le h =
      expired_or_same T now st (sign_owned sign i t cap_id msg_type nonce now st).0
        (sign_owned_state sign i t cap_id msg_type nonce now st) h

  pub run-Due :
      (T : ℕ) (calls : List (ℕ × Call)) (st : UnlockState)
      → All (By T) calls
      → Due T st
      → Due T (run lib lock_pages sign i calls st)
  unfolding run
  run-Due T [] st by h = h
  run-Due T ((now, c) ∷ calls) st by h =
      run-Due T calls (state_after lib lock_pages sign i c now st) by.1
        (state_after-Due T c now st by.0 h)
