-- ===== src/Identity/Unlock/Calls.antt =====
-- Any calls of an identity's unlock surface, in any order, each at its time.
use open_air.Prelude.{
  ℕ, ◌/◌, ◌^◌, ◌≡◌, ◌⊎◌, inl, inr, refl, Bool, Option-cases, List, [], ◌∷◌, Bytes,
}
use open_air.Prelude.Int.{pos}
use open_air.Prelude.Maps.{lookup}
use open_air.Identity.OwnedProof.{owned_signing_input}
use open_air.Identity.Types.{DeviceId}
use open_air.Identity.KeyFile.{KeyCrypto}
use open_air.Identity.Unlock.{
  privilege_of, UnlockOptions, UnlockState, FileIdentity, expire_locked, unlock, lock, lock_peer,
  unlocked_until, unlocked_peers, sign_owned, begin_owned,
}

pub data Call : Type 0 where
  unlock_call : DeviceId → UnlockOptions → Call
  lock_call sweep_call peers_call : Call
  lock_peer_call until_call begin_call : DeviceId → Call
  sign_call : DeviceId → ℕ → ℕ → Bytes → Call

module _ (lib : KeyCrypto) (lock_pages : Bytes → Bool) (sign : Bytes → Bytes → Bytes)
    (i : FileIdentity) where
  unfoldable pub state_after : Call → ℕ → UnlockState → UnlockState
  state_after (unlock_call target opts) now st = (unlock lib lock_pages i target opts now st).0
  state_after lock_call now st = lock st
  state_after sweep_call now st = expire_locked now st
  state_after peers_call now st = (unlocked_peers now st).0
  state_after (lock_peer_call target) now st = lock_peer target st
  state_after (until_call target) now st = (unlocked_until target now st).0
  state_after (begin_call target) now st = (begin_owned i target now st).0
  state_after (sign_call target cap_id msg_type nonce) now st =
      (sign_owned sign i target cap_id msg_type nonce now st).0

  unfoldable pub run : List (ℕ × Call) → UnlockState → UnlockState
  run [] st = st
  run ((now, c) ∷ calls) st = run calls (state_after c now st)

-- What only reads the unlock state leaves it as it is, or drops what has expired.
pub begin_owned_state :
    (i : FileIdentity) (target : DeviceId) (now : ℕ) (st : UnlockState)
    → ((begin_owned i target now st).0 ≡ st)
      ⊎ ((begin_owned i target now st).0 ≡ expire_locked now st)
unfolding begin_owned
begin_owned_state i target now st = elim (Option-cases (privilege_of i)) [
  | inl n ↦ inl (rw (begin_owned, n) refl)
  | inr (p, e) ↦ elim (Option-cases (lookup target (expire_locked now st).grants)) [
    | inl n ↦ inr (rw (begin_owned, e, n) refl)
    | inr (g, f) ↦ inr (rw (begin_owned, e, f) refl)
  ]
]

pub sign_owned_state :
    (sign : Bytes → Bytes → Bytes) (i : FileIdentity) (target : DeviceId) (cap_id msg_type : ℕ)
    (nonce : Bytes) (now : ℕ) (st : UnlockState)
    → ((sign_owned sign i target cap_id msg_type nonce now st).0 ≡ st)
      ⊎ ((sign_owned sign i target cap_id msg_type nonce now st).0 ≡ expire_locked now st)
unfolding sign_owned
sign_owned_state sign i target cap_id msg_type nonce now st =
    let s = expire_locked now st in
    elim (Option-cases (privilege_of i)) [
      | inl n ↦ inl (rw (sign_owned, n) refl)
      | inr (p, e) ↦ elim (Option-cases (lookup target s.grants)) [
        | inl n ↦ inr (rw (sign_owned, e, n) refl)
        | inr (g, f) ↦ elim (Option-cases s.key) [
          | inl n ↦ inr (simp (sign_owned, e, f, n) refl)
          | inr (k, held) ↦
              elim (Option-cases
                (owned_signing_input target cap_id msg_type nonce (pos (now / 10 ^ 6)))) [
                  | inl n ↦ inr (simp (sign_owned, e, f, held, n) refl)
                  | inr (input, built) ↦ inr (simp (sign_owned, e, f, held, built) refl)
                ]
        ]
      ]
    ]
