-- ===== src/Identity/Unlock/Own.antt =====
-- The grant that an unlock gives a peer is the only one, and calls that do not unlock that peer
-- again leave it so.
use open_air.Prelude.{
  ℕ, ◌≡◌, ◌⊎◌, inl, inr, sym, subst, Bool, false, Bool-cases, Option-cases, List, [], ◌∷◌, All,
  Bytes, bytes_eq, some, Result-cases, ok, arith,
}
use open_air.Prelude.Maps.{Map, insert, remove}
use open_air.Identity.Types.{DeviceId}
use open_air.Identity.DeviceId.{valid}
use open_air.Identity.KeyFile.{KeyCrypto, open_privilege}
use open_air.Identity.Unlock.{
  Grant, UnlockOptions, UnlockState, LockedKey, FileIdentity, throttle_locked, privilege_of,
  granted, expire_locked, unlock_with, unlock, lock, lock_peer, unlocked_until, unlocked_peers,
  sign_owned, begin_owned,
}
use open_air.Identity.Unlock.Calls.{
  begin_owned_state, sign_owned_state, Call, unlock_call, lock_call, sweep_call, peers_call,
  lock_peer_call, until_call, begin_call, sign_call, state_after, run,
}
use open_air.Identity.Unlock.Grants.{All-wiped, All-expire, All-remove, All-unlock}

-- Any grant of `target` is the grant `g`.
abbrev pub Own : DeviceId → Grant → DeviceId × Grant → Type 0
Own target g e = (bytes_eq target e.0 ≡ false) ⊎ (e.1 ≡ g)

remove-Own : (target : DeviceId) (g : Grant) (m : Map Grant) → All (Own target g) (remove target m)
unfolding remove
remove-Own target g [] = tt
remove-Own target g ((id, h) ∷ m) = elim (Bool-cases (bytes_eq target id)) [
  | inl same ↦ rw same (remove-Own target g m)
  | inr other ↦ rw other (inl other, remove-Own target g m)
]

granted-Own :
    (st : UnlockState) (target : DeviceId) (opts : UnlockOptions) (now : ℕ) (g : Grant)
    → (granted st target opts now).1 ≡ ok g
    → All (Own target g) (granted st target opts now).0.grants
unfolding insert
granted-Own st target opts now g e = (inr cc, remove-Own target g st.grants)

module _ (lib : KeyCrypto) (lock_pages : Bytes → Bool) (i : FileIdentity) where
  unlock_with-Own :
      (privilege_pub : Bytes) (target : DeviceId) (opts : UnlockOptions) (now : ℕ)
      (st : UnlockState) (g : Grant)
      → (unlock_with lib lock_pages i privilege_pub target opts now st).1 ≡ ok g
      → All (Own target g) (unlock_with lib lock_pages i privilege_pub target opts now st).0.grants
  unfolding unlock_with
  unlock_with-Own privilege_pub target opts now st g e =
      elim (Bool-cases (throttle_locked st now)) [
        | inl wait ↦ absurd (grind (arith, rw wait at e))
        | inr try ↦ elim (Option-cases st.key) [
          | inr (k, held) ↦ rw (try, held) (granted-Own st target opts now g (rw (try, held) at e))
          | inl sealed ↦
              elim (Result-cases (
                open_privilege lib i.sealed_priv_key privilege_pub opts.passphrase
                  opts.keystore_kek)) [
                    | inr (w, bad) ↦ absurd (grind (arith, rw (try, sealed, bad) at e))
                    | inl (priv, good) ↦
                        let k : LockedKey = record { key = priv; locked = lock_pages priv } in
                        rw (try, sealed, good)
                          (granted-Own (record st { key = some k }) target opts now g
                            (rw (try, sealed, good) at e))
                  ]
        ]
      ]

  pub unlock-Own :
      (target : DeviceId) (opts : UnlockOptions) (now : ℕ) (st : UnlockState) (g : Grant)
      → (unlock lib lock_pages i target opts now st).1 ≡ ok g
      → All (Own target g) (unlock lib lock_pages i target opts now st).0.grants
  unfolding unlock
  unlock-Own target opts now st g e = elim (Bool-cases (valid target)) [
    | inr bad ↦ absurd (grind (arith, rw bad at e))
    | inl good ↦ elim (Option-cases (privilege_of i)) [
      | inl n ↦ absurd (grind (arith, rw (good, n) at e))
      | inr (p, h) ↦
          rw (good, h)
            (unlock_with-Own p target opts now (expire_locked now st) g (rw (good, h) at e))
    ]
  ]

-- A call that is not an unlock of `target`.
abbrev pub Spares : DeviceId → ℕ × Call → Type 0
Spares target (now, unlock_call t opts) = bytes_eq target t ≡ false
Spares target (now, c) = Unit {0}

module _ (lib : KeyCrypto) (lock_pages : Bytes → Bool) (sign : Bytes → Bytes → Bytes)
    (i : FileIdentity) (target : DeviceId) (g : Grant) where
  expired_or_same :
      (now : ℕ) (st st' : UnlockState)
      → (st' ≡ st) ⊎ (st' ≡ expire_locked now st)
      → All (Own target g) st.grants
      → All (Own target g) st'.grants
  expired_or_same now st st' (inl e) h = subst (λ s. All (Own target g) s.grants) (sym e) h
  expired_or_same now st st' (inr e) h =
      subst (λ s. All (Own target g) s.grants) (sym e) (All-expire (Own target g) now st h)

  state_after-Own :
      (c : Call) (now : ℕ) (st : UnlockState)
      → Spares target (now, c)
      → All (Own target g) st.grants
      → All (Own target g) (state_after lib lock_pages sign i c now st).grants
  unfolding state_after lock lock_peer unlocked_until unlocked_peers
  state_after-Own (unlock_call t opts) now st other h =
      All-unlock (Own target g) lib lock_pages i t opts now st (inl other) h
  state_after-Own lock_call now st other h = tt
  state_after-Own sweep_call now st other h = All-expire (Own target g) now st h
  state_after-Own peers_call now st other h = All-expire (Own target g) now st h
  state_after-Own (lock_peer_call t) now st other h =
      All-wiped (Own target g) st (remove t st.grants) (All-remove (Own target g) t st.grants h)
  state_after-Own (until_call t) now st other h = All-expire (Own target g) now st h
  state_after-Own (begin_call t) now st other h =
      expired_or_same now st (begin_owned i t now st).0 (begin_owned_state i t now st) h
  state_after-Own (sign_call t cap_id msg_type nonce) now st other h =
      expired_or_same now st (sign_owned sign i t cap_id msg_type nonce now st).0
        (sign_owned_state sign i t cap_id msg_type nonce now st) h

  pub run-Own :
      (calls : List (ℕ × Call)) (st : UnlockState)
      → All (Spares target) calls
      → All (Own target g) st.grants
      → All (Own target g) (run lib lock_pages sign i calls st).grants
  unfolding run
  run-Own [] st other h = h
  run-Own ((now, c) ∷ calls) st other h =
      run-Own calls (state_after lib lock_pages sign i c now st) other.1
        (state_after-Own c now st other.0 h)
