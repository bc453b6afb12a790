-- ===== src/Session/Auth/Spend.antt =====
-- What a proof that counted says of the operation, and what becomes of it.
use open_air.Prelude.{
  ℕ, ◌≡◌, inl, inr, refl, sym, ap, subst, ==_iff, ◌∙◌, Bool, true, false, Bool-cases, Option-cases,
  List, [], ◌∷◌, ◌++◌, ◌==◌, length, Bytes, Option, none, some, arith,
}
use open_air.Prelude.Int.{ℤ}
use open_air.Prelude.Maps.{lookup, insert}
use open_air.Identity.Types.{DeviceId}
use open_air.Session.Envelope.{ErrorCode}
use open_air.Session.Auth.{
  AuthProof, AuthVerifier, public_key_size, unix_milli, in_window, prune, spend, proves, take_proof,
  consume,
}

-- `p` was one of the proofs, and `others` are the rest, in order.
abbrev pub TakenFrom : AuthProof → List AuthProof → List AuthProof → Type 0
TakenFrom p ps others =
    (front : List AuthProof) × (back : List AuthProof) × (ps ≡ front ++ (p ∷ back))
    × (others ≡ front ++ back)

-- The proof `p` authorised the operation and is spent: the verifier goes from `a` to `a'`.
pub record Spent (verify : Bytes → Bytes → Bytes → Bool) (a : AuthVerifier) (now : ℤ) (key : Bytes)
    (cap_id msg_type : ℕ) (p : AuthProof) (a' : AuthVerifier) : Type 0 where
  pub pinned_key : length key ≡ public_key_size
  pub genuine : proves verify key a.local_id cap_id msg_type p ≡ true
  pub fresh : in_window now (unix_milli p.issued_at) ≡ true
  pub unused : lookup p.nonce (prune now a.seen) ≡ none
  pub noted : a'.seen ≡ insert p.nonce p.issued_at (prune now a.seen)
  pub taken : TakenFrom p a.pending a'.pending
  pub same_device : a'.local_id ≡ a.local_id

module _ (verify : Bytes → Bytes → Bytes → Bool) (key : Bytes) (local_id : DeviceId)
    (cap_id msg_type : ℕ) where
  here :
      (q p : AuthProof) (qs others : List AuthProof)
      → ◌≡◌ {A = Option (AuthProof × List AuthProof)} (some (q, qs)) (some (p, others))
      → proves verify key local_id cap_id msg_type q ≡ true
      → (proves verify key local_id cap_id msg_type p ≡ true) × TakenFrom p (q ∷ qs) others
  here q p qs others e h =
      let same : q ≡ p = cc in
      let rest : others ≡ qs = cc in
      (
        subst (λ x. proves verify key local_id cap_id msg_type x ≡ true) same h,
        ([], qs, ap (λ x. x ∷ qs) same, rest),
      )

  behind :
      (q p : AuthProof) (qs others : List AuthProof)
      → TakenFrom p qs others
      → TakenFrom p (q ∷ qs) (q ∷ others)
  behind q p qs others (front, back, e, r) = (q ∷ front, back, ap (◌∷◌ q) e, ap (◌∷◌ q) r)

  pub take_proof-TakenFrom :
      (ps : List AuthProof) (p : AuthProof) (others : List AuthProof)
      → take_proof verify key local_id cap_id msg_type ps ≡ some (p, others)
      → (proves verify key local_id cap_id msg_type p ≡ true) × TakenFrom p ps others
  unfolding take_proof
  take_proof-TakenFrom [] p others e = absurd (grind arith)
  take_proof-TakenFrom (q ∷ qs) p others e =
      elim (Bool-cases (proves verify key local_id cap_id msg_type q)) [
        | inl found ↦ here q p qs others (rw found at e) found
        | inr not_here ↦ elim (Option-cases (take_proof verify key local_id cap_id msg_type qs)) [
          | inl n ↦ absurd (grind (arith, e, not_here, n))
          | inr ((r, rs), later) ↦
              let found_later : ◌≡◌ {A = Option (AuthProof × List AuthProof)} (some (r, q ∷ rs))
                  (some (p, others)) =
                sym (rw (not_here, later) refl) ∙ e in
              let same : r ≡ p = cc in
              let rest : q ∷ rs ≡ others = cc in
              let (good, t) = take_proof-TakenFrom qs r rs later in
              (
                subst (λ x. proves verify key local_id cap_id msg_type x ≡ true) same good,
                subst (λ x. TakenFrom x (q ∷ qs) others) same
                    (subst (TakenFrom r (q ∷ qs)) rest (behind q r qs rs t)),
              )
        ]
      ]

refused :
    (r : AuthVerifier × Bool × ErrorCode) (a' : AuthVerifier) (code : ErrorCode)
    → r.1 ≡ false
    → ¬ (r ≡ (a', true, code))
refused r a' code denied e = grind (arith, sym denied ∙ ap (λ t. t.1) e)

-- What an accepted call came with, as far as `spend` sees it.
spend_accepted :
    (a a' : AuthVerifier) (now : ℤ) (p : AuthProof) (code : ErrorCode)
    → ◌≡◌ {A = AuthVerifier × Bool × ErrorCode} (spend a now p) (a', true, code)
    → (in_window now (unix_milli p.issued_at) ≡ true)
      × (lookup p.nonce a.seen ≡ none)
      × (a' ≡ record a { seen = insert p.nonce p.issued_at a.seen })
unfolding spend
spend_accepted a a' now p code e = elim (Bool-cases (in_window now (unix_milli p.issued_at))) [
  | inr old ↦ absurd (refused _ a' code (rw old refl) e)
  | inl fresh ↦ elim (Option-cases (lookup p.nonce a.seen)) [
    | inr (i, used) ↦ absurd (refused _ a' code (rw (fresh, used) refl) e)
    | inl unused ↦ (fresh, unused, sym (ap (λ t. t.0) e) ∙ rw (fresh, unused) refl)
  ]
]

-- A call that authorised spent a proof of its own.
pub consume-Spent :
    (verify : Bytes → Bytes → Bytes → Bool) (a a' : AuthVerifier) (now : ℤ) (key : Bytes)
    (cap_id msg_type : ℕ) (code : ErrorCode)
    → ◌≡◌ {A = AuthVerifier × Bool × ErrorCode}
        (consume verify a now key cap_id msg_type)
        (a', true, code)
    → (p : AuthProof) × Spent verify a now key cap_id msg_type p a'
unfolding consume
consume-Spent verify a a' now key cap_id msg_type code e =
    elim (Bool-cases (length a.pending == 0)) [
      | inl empty ↦ absurd (refused _ a' code (rw empty refl) e)
      | inr some_pending ↦ elim (Bool-cases (length key == public_key_size)) [
        | inr no_key ↦ absurd (refused _ a' code (rw (some_pending, no_key) refl) e)
        | inl with_key ↦
            elim (Option-cases (take_proof verify key a.local_id cap_id msg_type a.pending)) [
              | inl n ↦ absurd (refused _ a' code (rw (some_pending, with_key, n) refl) e)
              | inr ((p, others), found) ↦
                  let spent =
                    spend_accepted (record a { seen = prune now a.seen; pending = others }) a' now p
                      code (sym (rw (some_pending, with_key, found) refl) ∙ e) in
                  let (fresh, unused, after) = spent in
                  let (good, t) =
                    take_proof-TakenFrom verify key a.local_id cap_id msg_type a.pending p others
                      found in
                  (
                    p,
                    record {
                      pinned_key = (==_iff (length key) public_key_size).0 with_key;
                      genuine = good;
                      fresh = fresh;
                      unused = unused;
                      noted = ap (λ v. v.seen) after;
                      taken = subst (TakenFrom p a.pending) (sym (ap (λ v. v.pending) after)) t;
                      same_device = ap (λ v. v.local_id) after;
                    },
                  )
            ]
      ]
    ]
