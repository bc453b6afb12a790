-- ===== src/Identity/Unlock/Expiry.antt =====
-- What a grant allows, and when it ends.
use open_air.Prelude.{
  ℕ, ◌+◌, ◌/◌, ◌^◌, ◌≤◌, ◌<◌, ◌≡◌, ◌⊎◌, inl, inr, refl, sym, ap, subst, ◌∙◌, Bool, true, false,
  Bool-cases, Option-cases, ltb, ltb→lt, List, [], ◌∷◌, All, if◌then◌else◌, Bytes, bytes_eq, Option,
  none, some, Result, ok_injective, ok, err, arith,
}
use open_air.Prelude.Int.{ℤ, pos}
use open_air.Prelude.Maps.{Map, lookup}
use open_air.Identity.Types.{DeviceId}
use open_air.Identity.KeyFile.{KeyCrypto}
use open_air.Identity.OwnedProof.{owned_signing_input}
use open_air.Identity.Unlock.{
  deadline_of, Grant, live, UnlockOptions, UnlockState, UnlockError, key_locked, grace_expired,
  LockedKey, FileIdentity, privilege_of, drop_expired, max_in_flight_grace, wiped_if_unused,
  expire_locked, unlock, unlocked_until, sign_owned, Operation, begin_owned, check,
}
use open_air.Identity.Unlock.Calls.{Call, run}
use open_air.Identity.Unlock.Own.{Own, unlock-Own, Spares, run-Own}

wiped_grants : (st : UnlockState) (m : Map Grant) → (wiped_if_unused st m).grants ≡ m
wiped_grants st [] = refl
wiped_grants st (g ∷ m) = refl

pub expire_grants :
    (now : ℕ) (st : UnlockState) → (expire_locked now st).grants ≡ drop_expired now st.grants
unfolding expire_locked
expire_grants now st = wiped_grants st (drop_expired now st.grants)

lapsed :
    (target : DeviceId) (expires t : ℕ) (m : Map Grant)
    → expires ≤ t
    → All (Own target (some expires)) m
    → lookup target (drop_expired t m) ≡ none
unfolding lookup drop_expired
lapsed target expires t [] late h = refl
lapsed target expires t ((id, g) ∷ m) late (inl other, h) = elim (Bool-cases (live t g)) [
  | inl l ↦ rw (l, other) (lapsed target expires t m late h)
  | inr old ↦ rw old (lapsed target expires t m late h)
]
lapsed target expires t ((id, g) ∷ m) late (inr this, h) =
    let over : ltb t expires ≡ false = ground (arith, late) in
    let gone : live t g ≡ false = ap (live t) this ∙ over in
    rw gone (lapsed target expires t m late h)

-- What is left after dropping what has expired is live.
lookup-live :
    (target : DeviceId) (now : ℕ) (m : Map Grant) (g : Grant)
    → lookup target (drop_expired now m) ≡ some g
    → live now g ≡ true
unfolding lookup drop_expired
lookup-live target now [] g e = absurd (grind (arith, e))
lookup-live target now ((id, h) ∷ m) g e = elim (Bool-cases (live now h)) [
  | inr old ↦ lookup-live target now m g (rw old at e)
  | inl l ↦ elim (Bool-cases (bytes_eq target id)) [
    | inr other ↦ lookup-live target now m g (rw (l, other) at e)
    | inl same ↦
        let first : ◌≡◌ {A = Option Grant} (some h) (some g) = rw (l, same) at e in
        let this : h ≡ g = cc in subst (λ x. live now x ≡ true) this l
  ]
]

abbrev begun_with : DeviceId → Grant → Operation
begun_with target g = record { target = target; deadline = deadline_of g; ended = false }

begun-check :
    (target : DeviceId) (now : ℕ) (g : Grant) (op : Operation)
    → live now g ≡ true
    → op ≡ begun_with target g
    → ((g ≡ none) × ((t : ℕ) → check op t ≡ none))
      ⊎ ((expires : ℕ) × (g ≡ some expires)
          × (now < expires)
          × ((t : ℕ)
              → check op t
                ≡ (if ltb (expires + max_in_flight_grace) t then some grace_expired else none)))
unfolding check
begun-check target now none op l e = inl (refl, λ t. rw e refl)
begun-check target now (some expires) op l e =
    inr (expires, refl, ltb→lt now expires l, λ t. rw e refl)

module _ (lib : KeyCrypto) (lock_pages : Bytes → Bool) (sign : Bytes → Bytes → Bytes)
    (i : FileIdentity) (target : DeviceId) where
  -- An unlock of a peer that expires at some time ends then, absolutely: whatever calls are made
  -- after it, at whatever times and for whatever peers, so long as they do not unlock this peer
  -- again, from that time on the peer is not unlocked, no request to it is signed and no operation
  -- with it begins, on an identity that has a privilege key.
  pub unlock_lapses :
      (opts : UnlockOptions) (now expires t : ℕ) (st : UnlockState) (calls : List (ℕ × Call))
      (privilege_pub : Bytes) (cap_id msg_type : ℕ) (nonce : Bytes)
      → privilege_of i ≡ some privilege_pub
      → (unlock lib lock_pages i target opts now st).1 ≡ ok (some expires)
      → All (Spares target) calls
      → expires ≤ t
      → let st' = run lib lock_pages sign i calls (unlock lib lock_pages i target opts now st).0 in
        ((unlocked_until target t st').1 ≡ none)
        × ((sign_owned sign i target cap_id msg_type nonce t st').1 ≡ err key_locked)
        × ((begin_owned i target t st').1 ≡ err key_locked)
  unfolding unlocked_until sign_owned begin_owned
  unlock_lapses opts now expires t st calls privilege_pub cap_id msg_type nonce holds given spared
        late =
      let st₀ = (unlock lib lock_pages i target opts now st).0 in
      let st' = run lib lock_pages sign i calls st₀ in
      let own =
        run-Own lib lock_pages sign i target (some expires) calls st₀ spared
          (unlock-Own lib lock_pages i target opts now st (some expires) given) in
      let gone : lookup target (expire_locked t st').grants ≡ none =
        ap (lookup target) (expire_grants t st') ∙ lapsed target expires t st'.grants late own in
      (gone, rw (sign_owned, holds, gone) refl, rw (begin_owned, holds, gone) refl)

module _ (i : FileIdentity) (target : DeviceId) where
  -- A signature is made only for a peer with a grant that is live at this time, with the key that is
  -- held, and over the signing input of this very operation, target and time.
  pub sign_owned-live :
      (sign : Bytes → Bytes → Bytes) (cap_id msg_type now : ℕ) (nonce : Bytes) (st : UnlockState)
      (issued_at : ℤ) (signature : Bytes)
      → (sign_owned sign i target cap_id msg_type nonce now st).1 ≡ ok (issued_at, signature)
      → (g : Grant) × (k : LockedKey) × (input : Bytes) × (lookup target
            (expire_locked now st).grants
          ≡ some g)
        × (live now g ≡ true)
        × ((expire_locked now st).key ≡ some k)
        × (issued_at ≡ pos (now / 10 ^ 6))
        × (owned_signing_input target cap_id msg_type nonce issued_at ≡ some input)
        × (signature ≡ sign k.key input)
  unfolding sign_owned
  sign_owned-live sign cap_id msg_type now nonce st issued_at signature e =
      let s = expire_locked now st in
      elim (Option-cases (privilege_of i)) [
        | inl n ↦ absurd (grind (arith, rw (sign_owned, n) at e))
        | inr (p, holds) ↦ elim (Option-cases (lookup target s.grants)) [
          | inl n ↦ absurd (grind (arith, rw (sign_owned, holds, n) at e))
          | inr (g, found) ↦ elim (Option-cases s.key) [
            | inl n ↦ absurd (grind (arith, rw (sign_owned, holds, found, n) at e))
            | inr (k, held) ↦
                elim (Option-cases
                  (owned_signing_input target cap_id msg_type nonce (pos (now / 10 ^ 6)))) [
                    | inl n ↦ absurd (grind (arith, rw (sign_owned, holds, found, held, n) at e))
                    | inr (input, built) ↦
                        let done : ◌≡◌ {A = Result UnlockError (ℤ × Bytes)}
                            (ok (pos (now / 10 ^ 6), sign k.key input))
                            (ok (issued_at, signature)) =
                          rw (sign_owned, holds, found, held, built) at e in
                        let pair = ok_injective done in
                        let at_time : issued_at ≡ pos (now / 10 ^ 6) = sym (ap (λ q. q.0) pair) in
                        (
                          g,
                          k,
                          input,
                          found,
                          lookup-live target now st.grants g
                              (ap (lookup target) (sym (expire_grants now st)) ∙ found),
                          held,
                          at_time,
                          subst
                              (λ a. owned_signing_input target cap_id msg_type nonce a ≡ some input)
                              (sym at_time) built,
                          sym (ap (λ q. q.1) pair),
                        )
                  ]
          ]
        ]
      ]

  -- An operation begins only under a live grant. One that has begun, and has not ended, may go on at
  -- any time under a grant that does not expire, and until an hour after the expiry under any other.
  pub begin_owned-check :
      (now : ℕ) (st : UnlockState) (op : Operation)
      → (begin_owned i target now st).1 ≡ ok op
      → (g : Grant) × (lookup target (expire_locked now st).grants ≡ some g)
        × (((g ≡ none) × ((t : ℕ) → check op t ≡ none))
            ⊎ ((expires : ℕ) × (g ≡ some expires)
                × (now < expires)
                × ((t : ℕ)
                    → check op t ≡ (
                        if ltb (expires + max_in_flight_grace) t
                        then some grace_expired
                        else none))))
  unfolding begin_owned check
  begin_owned-check now st op e =
      let s = expire_locked now st in
      elim (Option-cases (privilege_of i)) [
        | inl n ↦ absurd (grind (arith, rw (begin_owned, n) at e))
        | inr (p, holds) ↦ elim (Option-cases (lookup target s.grants)) [
          | inl n ↦ absurd (grind (arith, rw (begin_owned, holds, n) at e))
          | inr (g, found) ↦
              let l =
                lookup-live target now st.grants g
                  (ap (lookup target) (sym (expire_grants now st)) ∙ found) in
              let begun : ◌≡◌ {A = Result UnlockError Operation} (ok (begun_with target g))
                  (ok op) =
                rw (begin_owned, holds, found) at e in
              (g, found, begun-check target now g op l (sym (ok_injective begun)))
        ]
      ]
