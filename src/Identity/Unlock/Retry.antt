-- ===== src/Identity/Unlock/Retry.antt =====
-- What the throttle promises: no try during the delay, and a try that is not refused after it.
use open_air.Prelude.{
  ℕ, suc, ◌+◌, ◌≤◌, ◌<◌, ◌≡◌, inl, inr, refl, sym, ap, subst, ◌∙◌, Bool, true, false, Bool-cases,
  Option-cases, ◌&&◌, ltb, leb, lt→ltb, List, All, Bytes, some, Result, Result-cases, ok, err,
  arith,
}
use open_air.Identity.Types.{DeviceId}
use open_air.Identity.DeviceId.{valid}
use open_air.Identity.KeyFile.{wrong_passphrase, KeyCrypto, open_privilege}
use open_air.Identity.Unlock.{
  throttle_after, throttle_step, throttle_ceiling, throttle_delay, Grant, UnlockOptions,
  UnlockState, UnlockError, throttled, not_opened, FileIdentity, locked_state, throttle_locked,
  privilege_of, failed, expiry_of, expire_locked, unlock_with, unlock,
}
use open_air.Identity.Unlock.Calls.{Call, run}
use open_air.Identity.Unlock.Throttle.{
  throttle_delay_bounds, expire_throttle, Due, Due-same, By, run-Due,
}

and_false : (b : Bool) → (b && false) ≡ false
and_false b = ground arith

wait_over :
    (T t : ℕ) (st : UnlockState)
    → T + throttle_ceiling ≤ t
    → Due T st
    → throttle_locked st t ≡ false
wait_over T t st late (inl n) = rw n refl
wait_over T t st late (inr (r, e, le)) =
    let over : ltb t r ≡ false = ground (arith, le, late) in
    rw (e, over) (and_false (leb throttle_after st.failures))

module _ (lib : KeyCrypto) (lock_pages : Bytes → Bool) (i : FileIdentity) where
  unlock_with_opens :
      (privilege_pub priv : Bytes) (target : DeviceId) (opts : UnlockOptions) (t : ℕ)
      (st : UnlockState)
      → throttle_locked st t ≡ false
      → open_privilege lib i.sealed_priv_key privilege_pub opts.passphrase opts.keystore_kek
        ≡ ok priv
      → (unlock_with lib lock_pages i privilege_pub target opts t st).1 ≡ ok (expiry_of opts t)
  unfolding unlock_with
  unlock_with_opens privilege_pub priv target opts t st free opens = elim (Option-cases st.key) [
    | inl sealed ↦ rw (free, sealed, opens) refl
    | inr (k, held) ↦ rw (free, held) refl
  ]

  -- Whatever was called on a locked identity that has a privilege key, thirty seconds after the
  -- last call an unlock of a valid peer id, with a credential that opens the key, succeeds.
  pub unlock_live :
      (sign : Bytes → Bytes → Bytes) (T t : ℕ) (calls : List (ℕ × Call))
      (privilege_pub priv : Bytes) (target : DeviceId) (opts : UnlockOptions)
      → All (By T) calls
      → T + throttle_ceiling ≤ t
      → valid target ≡ true
      → privilege_of i ≡ some privilege_pub
      → open_privilege lib i.sealed_priv_key privilege_pub opts.passphrase opts.keystore_kek
        ≡ ok priv
      → (unlock lib lock_pages i target opts t (run lib lock_pages sign i calls locked_state)).1
        ≡ ok (expiry_of opts t)
  unfolding unlock
  unlock_live sign T t calls privilege_pub priv target opts by late good holds opens =
      let st = run lib lock_pages sign i calls locked_state in
      let due = run-Due lib lock_pages sign i T calls locked_state by (inl refl) in
      let free =
        wait_over T t (expire_locked t st) late
          (Due-same T st (expire_locked t st) (expire_throttle t st).1 due) in
      rw (unlock, good, holds)
        (unlock_with_opens privilege_pub priv target opts t (expire_locked t st) free opens)

  unlock_with-failed :
      (privilege_pub : Bytes) (target : DeviceId) (opts : UnlockOptions) (now : ℕ)
      (st : UnlockState)
      → (unlock_with lib lock_pages i privilege_pub target opts now st).1
        ≡ err (not_opened wrong_passphrase)
      → (unlock_with lib lock_pages i privilege_pub target opts now st).0
        ≡ failed st now wrong_passphrase
  unfolding unlock_with
  unlock_with-failed privilege_pub target opts now st e =
      elim (Bool-cases (throttle_locked st now)) [
        | inl wait ↦ absurd (grind (arith, rw wait at e))
        | inr try ↦ elim (Option-cases st.key) [
          | inr (k, held) ↦ absurd (grind (arith, rw (try, held) at e))
          | inl sealed ↦
              elim (Result-cases (
                open_privilege lib i.sealed_priv_key privilege_pub opts.passphrase
                  opts.keystore_kek)) [
                    | inl (priv, good) ↦ absurd (grind (arith, rw (try, sealed, good) at e))
                    | inr (w, bad) ↦
                        let failure : ◌≡◌ {A = Result UnlockError Grant} (err (not_opened w))
                            (err (not_opened wrong_passphrase)) =
                          rw (try, sealed, bad) at e in
                        let this : w ≡ wrong_passphrase = cc in
                        simp (unlock_with, try, sealed, bad ∙ ap err this) refl
                  ]
        ]
      ]

  unlock-failed :
      (target : DeviceId) (opts : UnlockOptions) (now : ℕ) (st : UnlockState)
      → (unlock lib lock_pages i target opts now st).1 ≡ err (not_opened wrong_passphrase)
      → ((p : Bytes) × (privilege_of i ≡ some p))
        × ((unlock lib lock_pages i target opts now st).0
            ≡ failed (expire_locked now st) now wrong_passphrase)
  unfolding unlock
  unlock-failed target opts now st e = elim (Bool-cases (valid target)) [
    | inr bad ↦ absurd (grind (arith, rw bad at e))
    | inl good ↦ elim (Option-cases (privilege_of i)) [
      | inl n ↦ absurd (grind (arith, rw (good, n) at e))
      | inr (p, holds) ↦ (
        (p, holds),
        rw (good, holds)
            (unlock_with-failed p target opts now (expire_locked now st) (rw (good, holds) at e)),
      )
    ]
  ]

  -- A wrong passphrase that is at least the third failure in a row starts a delay, of two to
  -- thirty seconds, in which every unlock of a valid peer id is refused as throttled, with
  -- whatever credential, the right one included.
  pub unlock_throttled :
      (target target' : DeviceId) (opts opts' : UnlockOptions) (now t : ℕ) (st : UnlockState)
      → (unlock lib lock_pages i target opts now st).1 ≡ err (not_opened wrong_passphrase)
      → 2 ≤ st.failures
      → valid target' ≡ true
      → t < now + throttle_delay (suc st.failures)
      → (throttle_step ≤ throttle_delay (suc st.failures))
        × (throttle_delay (suc st.failures) ≤ throttle_ceiling)
        × ((unlock lib lock_pages i target' opts' t
              (unlock lib lock_pages i target opts now st).0).1
            ≡ err throttled)
  unfolding unlock unlock_with
  unlock_throttled target target' opts opts' now t st e many good early =
      let ((p, holds), after) = unlock-failed target opts now st e in
      let s = expire_locked now st in
      let f = failed s now wrong_passphrase in
      let (fail_count, retry) = expire_throttle t f in
      let count : (expire_locked t f).failures ≡ suc st.failures =
        fail_count ∙ ap suc (expire_throttle now st).0 in
      let due : (expire_locked t f).next_retry ≡ some (now + throttle_delay (suc st.failures)) =
        retry ∙ ap (λ n. some (now + throttle_delay (suc n))) (expire_throttle now st).0 in
      let wait : throttle_locked (expire_locked t f) t ≡ true =
        rw (due, count, lt→ltb t (now + throttle_delay (suc st.failures)) early)
          (ground (arith, many)) in
      let refused : (unlock lib lock_pages i target' opts' t f).1 ≡ err throttled =
        rw (unlock, good, holds, unlock_with, wait) refl in
      let (low, bounds) = throttle_delay_bounds (suc st.failures) in
      let long : throttle_step ≤ throttle_delay (suc st.failures) = elim bounds [
        | inl few ↦ absurd (omega (arith, few, many))
        | inr enough ↦ enough
      ] in
      (
        long,
        low,
        subst (λ x. (unlock lib lock_pages i target' opts' t x).1 ≡ err throttled) (sym after)
            refused,
      )
