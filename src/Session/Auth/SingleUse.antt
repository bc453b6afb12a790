-- ===== src/Session/Auth/SingleUse.antt =====
-- The nonces that the verifier remembers, over any calls with a clock that does not run back.
use open_air.Prelude.{
  ℕ, ◌+◌, ◌≡◌, ◌≢◌, ◌⊎◌, inl, inr, refl, sym, ap, subst, ◌∙◌, Bool, true, false, Bool-cases,
  Option-cases, [], ◌∷◌, ◌==◌, length, Bytes, bytes_eq, bytes_eq→eq, Option, none, some, ltb→lt,
  lt→ltb, leb→le, arith,
}
use open_air.Prelude.Int.{ℤ, pos_part, neg_part, leb_ℤ}
use open_air.Prelude.Maps.{Map, lookup, insert, lookup-insert, lookup-insert_self}
use open_air.Session.Envelope.{ErrorCode}
use open_air.Session.Auth.{
  AuthProof, AuthVerifier, public_key_size, unix_milli, exceeds, proof_window, receive, in_window,
  prune, spend, take_proof, consume,
}
use open_air.Session.Auth.Spend.{Spent, consume-Spent}

later_exceeds :
    (t now issued : ℤ) (d : ℕ)
    → leb_ℤ t now ≡ true
    → exceeds t issued d ≡ true
    → exceeds now issued d ≡ true
later_exceeds t now issued d after old =
    let h = leb→le (pos_part t + neg_part now) (pos_part now + neg_part t) after in
    let k = ltb→lt (pos_part issued + neg_part t + d) (pos_part t + neg_part issued) old in
    lt→ltb (pos_part issued + neg_part now + d) (pos_part now + neg_part issued) (omega arith)

lookup-prune :
    (nonce : Bytes) (issued now : ℤ) (seen : Map ℤ)
    → lookup nonce seen ≡ some issued
    → exceeds now (unix_milli issued) proof_window ≡ false
    → lookup nonce (prune now seen) ≡ some issued
unfolding lookup prune
lookup-prune nonce issued now [] e young = absurd (grind (arith, e))
lookup-prune nonce issued now ((n, i) ∷ seen) e young = elim (Bool-cases (bytes_eq nonce n)) [
  | inl same ↦
      let first : ◌≡◌ {A = Option ℤ} (some i) (some issued) = rw same at e in
      let this : i ≡ issued = cc in
      subst (λ j. lookup nonce (prune now ((n, j) ∷ seen)) ≡ some issued) (sym this)
        (rw (young, same) refl)
  | inr other ↦
      let later = lookup-prune nonce issued now seen (rw other at e) young in
      elim (Bool-cases (exceeds now (unix_milli i) proof_window)) [
        | inl old ↦ rw old later
        | inr kept ↦ rw (kept, other) later
      ]
]

-- What a call does to the nonces: it forgets the old ones, and notes at most a new one.
abbrev Noted : ℤ → AuthVerifier → AuthVerifier → Type 0
Noted now a a' =
    (a'.seen ≡ prune now a.seen)
    ⊎ (p : AuthProof) × (lookup p.nonce (prune now a.seen) ≡ none)
      × (a'.seen ≡ insert p.nonce p.issued_at (prune now a.seen))

spend-Noted :
    (a : AuthVerifier) (now : ℤ) (p : AuthProof) (a₀ : AuthVerifier)
    → a.seen ≡ prune now a₀.seen
    → Noted now a₀ (spend a now p).0
unfolding spend
spend-Noted a now p a₀ e = elim (Bool-cases (in_window now (unix_milli p.issued_at))) [
  | inr old ↦ inl (rw old e)
  | inl fresh ↦ elim (Option-cases (lookup p.nonce a.seen)) [
    | inr (i, used) ↦ inl (rw (fresh, used) e)
    | inl unused ↦ inr (
      p,
      subst (λ m. lookup p.nonce m ≡ none) e unused,
      rw (fresh, unused) (ap (insert p.nonce p.issued_at) e),
    )
  ]
]

consume-Noted :
    (verify : Bytes → Bytes → Bytes → Bool) (a : AuthVerifier) (now : ℤ) (key : Bytes)
    (cap_id msg_type : ℕ)
    → Noted now a (consume verify a now key cap_id msg_type).0
unfolding consume
consume-Noted verify a now key cap_id msg_type = elim (Bool-cases (length a.pending == 0)) [
  | inl empty ↦ inl (rw empty refl)
  | inr some_pending ↦ elim (Bool-cases (length key == public_key_size)) [
    | inr no_key ↦ inl (rw (some_pending, no_key) refl)
    | inl with_key ↦
        elim (Option-cases (take_proof verify key a.local_id cap_id msg_type a.pending)) [
          | inl n ↦ inl (rw (some_pending, with_key, n) refl)
          | inr ((p, others), found) ↦
              let after = record a { seen = prune now a.seen; pending = others } in
              rw (some_pending, with_key, found) (spend-Noted after now p a refl)
        ]
  ]
]

-- A nonce is remembered with the time that it came with, or its proof is too old by now.
abbrev Kept : Bytes → ℤ → ℤ → AuthVerifier → Type 0
Kept nonce issued t a =
    (lookup nonce a.seen ≡ some issued) ⊎ (exceeds t (unix_milli issued) proof_window ≡ true)

Noted-Kept :
    (nonce : Bytes) (issued t now : ℤ) (a a' : AuthVerifier)
    → leb_ℤ t now ≡ true
    → Kept nonce issued t a
    → Noted now a a'
    → Kept nonce issued now a'
Noted-Kept nonce issued t now a a' after (inr old) noted =
    inr (later_exceeds t now (unix_milli issued) proof_window after old)
Noted-Kept nonce issued t now a a' after (inl e) noted =
    elim (Bool-cases (exceeds now (unix_milli issued) proof_window)) [
      | inl old ↦ inr old
      | inr young ↦
          let still = lookup-prune nonce issued now a.seen e young in
          elim noted [
            | inl same ↦ inl (rw same still)
            | inr (p, unused, noted) ↦ inl (elim (Bool-cases (bytes_eq nonce p.nonce)) [
              | inl q ↦
                  let here =
                    subst (λ n. lookup n (prune now a.seen) ≡ some issued)
                      (bytes_eq→eq nonce p.nonce q) still in
                  absurd (grind (arith, sym unused ∙ here))
              | inr q ↦
                  rw noted (lookup-insert nonce p.nonce p.issued_at (prune now a.seen) ∙ rw q still)
            ])
          ]
    ]

-- A proof that is fresh now is remembered by its nonce, if it was used before.
Kept-remembered :
    (nonce : Bytes) (issued u now : ℤ) (b : AuthVerifier)
    → Kept nonce issued u b
    → leb_ℤ u now ≡ true
    → in_window now (unix_milli issued) ≡ true
    → lookup nonce (prune now b.seen) ≡ some issued
Kept-remembered nonce issued u now b (inr old) after fresh =
    let still_old = later_exceeds u now (unix_milli issued) proof_window after old in
    absurd (grind (arith, fresh, still_old))
Kept-remembered nonce issued u now b (inl e) after fresh =
    elim (Bool-cases (exceeds now (unix_milli issued) proof_window)) [
      | inl old ↦ absurd (grind (arith, fresh, old))
      | inr young ↦ lookup-prune nonce issued now b.seen e young
    ]

Kept-differ :
    (p q : AuthProof) (b : AuthVerifier) (u now : ℤ)
    → Kept p.nonce p.issued_at u b
    → leb_ℤ u now ≡ true
    → lookup q.nonce (prune now b.seen) ≡ none
    → in_window now (unix_milli q.issued_at) ≡ true
    → (bytes_eq p.nonce q.nonce ≡ false) ⊎ (p.issued_at ≢ q.issued_at)
Kept-differ p q b u now kept after unused fresh = elim (Bool-cases (bytes_eq p.nonce q.nonce)) [
  | inr apart ↦ inl apart
  | inl same ↦ inr (λ at_once.
      let fresh' = subst (λ i. in_window now (unix_milli i) ≡ true) (sym at_once) fresh in
      let used = Kept-remembered p.nonce p.issued_at u now b kept after fresh' in
      let used' =
        subst (λ n. lookup n (prune now b.seen) ≡ some p.issued_at)
          (bytes_eq→eq p.nonce q.nonce same) used in
      grind (arith, sym unused ∙ used'))
]

-- `Later verify a t b u`: calls after time `t`, the last one at time `u`, lead from `a` to `b`.
pub data Later (verify : Bytes → Bytes → Bytes → Bool) (a : AuthVerifier) (t : ℤ)
    : AuthVerifier → ℤ → Type 0 where
  stays : Later verify a t a t
  receives :
      (b : AuthVerifier) (u : ℤ) (decoded : Option AuthProof)
      → Later verify a t b u
      → Later verify a t (receive b decoded).0 u
  serves :
      (b : AuthVerifier) (u now : ℤ) (key : Bytes) (cap_id msg_type : ℕ)
      → Later verify a t b u
      → leb_ℤ u now ≡ true
      → Later verify a t (consume verify b now key cap_id msg_type).0 now

receive_seen : (a : AuthVerifier) (decoded : Option AuthProof) → (receive a decoded).0.seen ≡ a.seen
unfolding receive
receive_seen a none = refl
receive_seen a (some p) = ground arith

module _ (verify : Bytes → Bytes → Bytes → Bool) where
  Later-Kept :
      (nonce : Bytes) (issued : ℤ) (a : AuthVerifier) (t : ℤ) (b : AuthVerifier) (u : ℤ)
      → Later verify a t b u
      → Kept nonce issued t a
      → Kept nonce issued u b
  Later-Kept nonce issued a t _ _ stays k = k
  Later-Kept nonce issued a t _ _ (receives c u decoded run) k =
      elim (Later-Kept nonce issued a t c u run k) [
        | inl e ↦ inl (rw (receive_seen c decoded) e)
        | inr old ↦ inr old
      ]
  Later-Kept nonce issued a t _ _ (serves c v u key cap_id msg_type run after) k =
      Noted-Kept nonce issued v u c (consume verify c u key cap_id msg_type).0 after
        (Later-Kept nonce issued a t c v run k) (consume-Noted verify c u key cap_id msg_type)

  -- Whatever two calls authorise, with any calls between them while the clock does not run back:
  -- each spent a proof that verifies for its own operation, and the two proofs differ in the nonce
  -- or in the time they were issued.
  pub single_use :
      (a a' b b' : AuthVerifier) (t u now : ℤ) (key key' : Bytes)
      (cap_id cap_id' msg_type msg_type' : ℕ) (code code' : ErrorCode)
      → ◌≡◌ {A = AuthVerifier × Bool × ErrorCode}
          (consume verify a t key cap_id msg_type)
          (a', true, code)
      → Later verify a' t b u
      → leb_ℤ u now ≡ true
      → ◌≡◌ {A = AuthVerifier × Bool × ErrorCode}
          (consume verify b now key' cap_id' msg_type')
          (b', true, code')
      → (p : AuthProof) × (q : AuthProof) × Spent verify a t key cap_id msg_type p a'
        × Spent verify b now key' cap_id' msg_type' q b'
        × ((bytes_eq p.nonce q.nonce ≡ false) ⊎ (p.issued_at ≢ q.issued_at))
  single_use a a' b b' t u now key key' cap_id cap_id' msg_type msg_type' code code' first run after
        second =
      let (p, sp) = consume-Spent verify a a' t key cap_id msg_type code first in
      let (q, sq) = consume-Spent verify b b' now key' cap_id' msg_type' code' second in
      let noted : Kept p.nonce p.issued_at t a' = inl (
        subst (λ m. lookup p.nonce m ≡ some p.issued_at) (sym sp.noted)
          (lookup-insert_self p.nonce p.issued_at (prune t a.seen))) in
      let kept = Later-Kept p.nonce p.issued_at a' t b u run noted in
      (p, q, sp, sq, Kept-differ p q b u now kept after sq.unused sq.fresh)
