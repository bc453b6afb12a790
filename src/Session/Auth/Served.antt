-- ===== src/Session/Auth/Served.antt =====
-- The two ends of an Owned-level operation: a proof that `SignOwned` made, received and spent.
use open_air.Prelude.{
  ℕ, ◌+◌, ◌/◌, ◌^◌, ◌≤◌, ◌≡◌, refl, sym, ap, subst, ◌∙◌, Bool, true, [], ◌∷◌, length, Bytes, none,
  some, ok, arith,
}
use open_air.Prelude.Int.{ℤ, pos}
use open_air.Prelude.Maps.{lookup}
use open_air.Identity.OwnedProof.Binding.{signed}
use open_air.Identity.Unlock.{UnlockState, LockedKey, FileIdentity, expire_locked, sign_owned}
use open_air.Identity.Unlock.Expiry.{sign_owned-live}
use open_air.Session.Envelope.{no_error}
use open_air.Session.Auth.{
  AuthProof, AuthVerifier, proof_window, unix_milli, in_window, receive, prune, spend, proves,
  take_proof, consume,
}

-- A time in whole milliseconds is inside the window, if the clocks are less than that apart.
fresh_at :
    (now now' : ℕ)
    → now' + 10 ^ 6 ≤ now + proof_window
    → now ≤ now' + proof_window
    → in_window (pos now') (unix_milli (pos (now / 10 ^ 6))) ≡ true
fresh_at now now' h k = ground (arith, h, k)

module _ (verify : Bytes → Bytes → Bytes → Bool) where
  abbrev holding : AuthVerifier → AuthProof → AuthVerifier
  holding a p = record a { pending = p ∷ [] }

  received :
      (a : AuthVerifier) (p : AuthProof)
      → a.pending ≡ []
      → length p.nonce ≡ 32
      → length p.signature ≡ 64
      → receive a (some p) ≡ (holding a p, no_error)
  unfolding receive
  received a p none_held ln ls = rw (receive, none_held, ln, ls) refl

  let_through :
      (a : AuthVerifier) (p : AuthProof) (now : ℤ) (key : Bytes) (cap_id msg_type : ℕ)
      → length key ≡ 32
      → proves verify key a.local_id cap_id msg_type p ≡ true
      → in_window now (unix_milli p.issued_at) ≡ true
      → lookup p.nonce (prune now a.seen) ≡ none
      → (consume verify (holding a p) now key cap_id msg_type).1 ≡ true
  unfolding consume take_proof spend
  let_through a p now key cap_id msg_type lk good fresh unused =
      rw (consume, lk, good, fresh, unused) refl

  -- A verifier that holds nothing else lets one good proof through.
  lone_proof :
      (a : AuthVerifier) (p : AuthProof) (now : ℤ) (key : Bytes) (cap_id msg_type : ℕ)
      → a.pending ≡ []
      → length p.nonce ≡ 32
      → length p.signature ≡ 64
      → length key ≡ 32
      → proves verify key a.local_id cap_id msg_type p ≡ true
      → in_window now (unix_milli p.issued_at) ≡ true
      → lookup p.nonce (prune now a.seen) ≡ none
      → ((receive a (some p)).1 ≡ no_error)
        × ((consume verify (receive a (some p)).0 now key cap_id msg_type).1 ≡ true)
  lone_proof a p now key cap_id msg_type none_held ln ls lk good fresh unused =
      let got = received a p none_held ln ls in
      (
        ap (λ r. r.1) got,
        ap (λ r. (consume verify r.0 now key cap_id msg_type).1) got
            ∙ let_through a p now key cap_id msg_type lk good fresh unused,
      )

-- A request that an unlocked device signs is served: where the scheme verifies what the key signed
-- under the 32-byte public key that the peer pinned, and a signature has 64 bytes, the peer's
-- verifier takes the proof and the operation spends it, if it holds no other proof, the nonce is
-- new to it, and the clocks are less than a minute apart.
pub consume-sign_owned :
    (sign : Bytes → Bytes → Bytes) (verify : Bytes → Bytes → Bytes → Bool) (i : FileIdentity)
    (st : UnlockState) (k : LockedKey) (a : AuthVerifier) (public_key : Bytes)
    (cap_id msg_type now now' : ℕ) (nonce : Bytes) (issued_at : ℤ) (signature : Bytes)
    → ((input : Bytes) → verify public_key input (sign k.key input) ≡ true)
    → (expire_locked now st).key ≡ some k
    → (sign_owned sign i a.local_id cap_id msg_type nonce now st).1 ≡ ok (issued_at, signature)
    → length signature ≡ 64
    → length public_key ≡ 32
    → a.pending ≡ []
    → lookup nonce (prune (pos now') a.seen) ≡ none
    → now' + 10 ^ 6 ≤ now + proof_window
    → now ≤ now' + proof_window
    → let p : AuthProof = record { nonce = nonce; issued_at = issued_at; signature = signature } in
      ((receive a (some p)).1 ≡ no_error)
      × ((consume verify (receive a (some p)).0 (pos now') public_key cap_id msg_type).1 ≡ true)
unfolding proves
consume-sign_owned sign verify i st k a public_key cap_id msg_type now now' nonce issued_at
      signature scheme held made ls lk none_held unused early late =
    let p : AuthProof = record { nonce = nonce; issued_at = issued_at; signature = signature } in
    let (g, k', input, found, live, held', at_time, built, is_signed) =
      sign_owned-live i a.local_id sign cap_id msg_type now nonce st issued_at signature made in
    let (l_target, l_nonce, fields) =
      signed a.local_id cap_id msg_type nonce issued_at input built in
    let same_lock : some k' ≡ some k = sym held' ∙ held in
    let same_key : k' ≡ k = cc in
    let by_key : signature ≡ sign k.key input = is_signed ∙ ap (λ q. sign q.key input) same_key in
    let good : proves verify public_key a.local_id cap_id msg_type p ≡ true =
      rw (proves, built, by_key) (scheme input) in
    let fresh : in_window (pos now') (unix_milli issued_at) ≡ true =
      subst (λ t. in_window (pos now') (unix_milli t) ≡ true) (sym at_time)
        (fresh_at now now' early late) in
    lone_proof verify a p (pos now') public_key cap_id msg_type none_held l_nonce ls lk good fresh
      unused
