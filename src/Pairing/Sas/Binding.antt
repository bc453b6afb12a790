-- ===== src/Pairing/Sas/Binding.antt =====
-- What the transcript commits the two devices to.
use open_air.Prelude.{
  ℕ, ◌≡◌, ◌≢◌, ◌⊎◌, inl, inr, refl, sym, ap, ◌∙◌, true, false, Bool-cases, not, ◌==◌, if◌then◌else◌,
  length, replicate, append_injective, Bytes, bytes_eq, bytes_eq_refl, bytes_lt,
  bytes_lt-asymmetric, bytes_lt-total, ok, and_then_ok, guarded_ok, ok_injective, arith,
}
use open_air.Prelude.Maps.{bytes_ne}
use open_air.Pairing.Sas.{
  Party, same_identity, bad_nonce, sas_context, nonce_len, public_key_size, check_key, order,
  append_fields, transcript,
}

-- The key that stands in the transcript for a privilege key.
abbrev pub filled : Bytes → Bytes
filled k = if length k == 0 then replicate public_key_size 0 else k

-- The transcript written out, with the conditions under which there is one.
pub record IsTranscript (a b : Party) (t : Bytes) : Type 0 where
  pub ids : (length a.identity_key ≡ public_key_size) × (length b.identity_key ≡ public_key_size)
  pub two_devices : a.identity_key ≢ b.identity_key
  pub privs :
      (length (filled a.privilege_key) ≡ public_key_size)
      × (length (filled b.privilege_key) ≡ public_key_size)
  pub nonces : (length a.nonce ≡ nonce_len) × (length b.nonce ≡ nonce_len)
  pub bytes :
      t
      ≡ append_fields
          (order a.identity_key b.identity_key)
          (order (filled a.privilege_key) (filled b.privilege_key))
          a.nonce
          b.nonce

check_key-identity :
    (k k' : Bytes) → check_key k false ≡ ok k' → (length k ≡ public_key_size) × (k' ≡ k)
unfolding check_key
check_key-identity k k' e = elim (Bool-cases (length k == public_key_size)) [
  | inl w ↦ ground (arith, e)
  | inr w ↦ ground (arith, e)
]

check_key-privilege :
    (k k' : Bytes)
    → check_key k true ≡ ok k'
    → (length (filled k) ≡ public_key_size) × (k' ≡ filled k)
unfolding check_key
check_key-privilege k k' e = elim (Bool-cases (length k == 0)) [
  | inl w ↦ ground (arith, e)
  | inr w ↦ ground (arith, e)
]

transcript-IsTranscript : (a b : Party) (t : Bytes) → transcript a b ≡ ok t → IsTranscript a b t
unfolding transcript
transcript-IsTranscript a b t e =
    let (ka, ea, ra) = and_then_ok (check_key a.identity_key false) _ e in
    let (kb, eb, rb) = and_then_ok (check_key b.identity_key false) _ ra in
    let (ne, r1) = guarded_ok (bytes_eq ka kb) same_identity _ rb in
    let (pa, ec, rc) = and_then_ok (check_key a.privilege_key true) _ r1 in
    let (pb, ed, rd) = and_then_ok (check_key b.privilege_key true) _ rc in
    let (na, r2) = guarded_ok (not (length a.nonce == nonce_len)) bad_nonce _ rd in
    let (nb, r3) = guarded_ok (not (length b.nonce == nonce_len)) bad_nonce _ r2 in
    let (la, qa) = check_key-identity a.identity_key ka ea in
    let (lb, qb) = check_key-identity b.identity_key kb eb in
    let (lc, qc) = check_key-privilege a.privilege_key pa ec in
    let (ld, qd) = check_key-privilege b.privilege_key pb ed in
    let made : append_fields (order ka kb) (order pa pb) a.nonce b.nonce ≡ t = ok_injective r3 in
    record {
      ids = (la, lb);
      two_devices = λ same. absurd (grind (arith, ne, bytes_eq_refl kb, qa ∙ same ∙ sym qb));
      privs = (lc, ld);
      nonces = (ground arith, ground arith);
      bytes = sym (rw (← qa, ← qb, ← qc, ← qd) made);
    }

check_identity : (k : Bytes) → length k ≡ public_key_size → check_key k false ≡ ok k
unfolding check_key
check_identity k h = ground arith

check_privilege :
    (k : Bytes) → length (filled k) ≡ public_key_size → check_key k true ≡ ok (filled k)
unfolding check_key
check_privilege k h = elim (Bool-cases (length k == 0)) [ inl e ↦ rw e refl | inr e ↦ ground arith ]

IsTranscript-transcript : (a b : Party) (t : Bytes) → IsTranscript a b t → transcript a b ≡ ok t
unfolding transcript
IsTranscript-transcript a b t w =
    let na : (length a.nonce == nonce_len) ≡ true = ground (arith, w.nonces.0) in
    let nb : (length b.nonce == nonce_len) ≡ true = ground (arith, w.nonces.1) in
    rw
      (
        check_identity a.identity_key w.ids.0,
        check_identity b.identity_key w.ids.1,
        bytes_ne a.identity_key b.identity_key w.two_devices,
        check_privilege a.privilege_key w.privs.0,
        check_privilege b.privilege_key w.privs.1,
        na,
        nb,
      )
      (ap (λ x. ok x) (sym w.bytes))

order-length :
    (x y : Bytes) (n : ℕ)
    → length x ≡ n
    → length y ≡ n
    → (length (order x y).0 ≡ n) × (length (order x y).1 ≡ n)
order-length x y n p q = ground (arith)

-- Two pairs sort to the same values only if they hold the same values.
order-same :
    (x y z w : Bytes)
    → (order x y).0 ≡ (order z w).0
    → (order x y).1 ≡ (order z w).1
    → ((x ≡ z) × (y ≡ w)) ⊎ ((x ≡ w) × (y ≡ z))
order-same x y z w p q = ground (arith)

-- The fields of a transcript, read off by their widths.
fields_injective :
    {p p' q q' : Bytes × Bytes} {m m' n n' : Bytes} {w l : ℕ}
    → (length p.0 ≡ w) × (length p.1 ≡ w)
    → (length p'.0 ≡ w) × (length p'.1 ≡ w)
    → (length q.0 ≡ w) × (length q.1 ≡ w)
    → (length q'.0 ≡ w) × (length q'.1 ≡ w)
    → length m ≡ l
    → length m' ≡ l
    → append_fields p q m n ≡ append_fields p' q' m' n'
    → ((p.0 ≡ p'.0) × (p.1 ≡ p'.1)) × ((q.0 ≡ q'.0) × (q.1 ≡ q'.1)) × (m ≡ m') × (n ≡ n')
fields_injective (a, b) (a', b') (c, d) (c', d') x x' e =
    let (e0, r0) = append_injective sas_context _ sas_context _ refl e in
    let (e1, r1) = append_injective _ _ _ _ (a ∙ sym a') r0 in
    let (e2, r2) = append_injective _ _ _ _ (b ∙ sym b') r1 in
    let (e3, r3) = append_injective _ _ _ _ (c ∙ sym c') r2 in
    let (e4, r4) = append_injective _ _ _ _ (d ∙ sym d') r3 in
    let (e5, e6) = append_injective _ _ _ _ (x ∙ sym x') r4 in ((e1, e2), (e3, e4), e5, e6)

-- Two exchanges with one transcript are between the same two devices: each role's nonce is the
-- same, the two identity keys are the same, and so are the two privilege keys that stand in the
-- transcript, each pair up to its order.
pub transcript-binds :
    (a b a' b' : Party) (t : Bytes)
    → transcript a b ≡ ok t
    → transcript a' b' ≡ ok t
    → ((a.nonce ≡ a'.nonce) × (b.nonce ≡ b'.nonce))
      × (((a.identity_key ≡ a'.identity_key) × (b.identity_key ≡ b'.identity_key))
          ⊎ ((a.identity_key ≡ b'.identity_key) × (b.identity_key ≡ a'.identity_key)))
      × (((filled a.privilege_key ≡ filled a'.privilege_key)
            × (filled b.privilege_key ≡ filled b'.privilege_key))
          ⊎ ((filled a.privilege_key ≡ filled b'.privilege_key)
              × (filled b.privilege_key ≡ filled a'.privilege_key)))
transcript-binds a b a' b' t e e' =
    let w = transcript-IsTranscript a b t e in
    let w' = transcript-IsTranscript a' b' t e' in
    let (ids, privs, na, nb) =
      fields_injective (order-length a.identity_key b.identity_key public_key_size w.ids.0 w.ids.1)
        (order-length a'.identity_key b'.identity_key public_key_size w'.ids.0 w'.ids.1)
        (order-length (filled a.privilege_key) (filled b.privilege_key) public_key_size w.privs.0
          w.privs.1)
        (order-length (filled a'.privilege_key) (filled b'.privilege_key) public_key_size w'.privs.0
          w'.privs.1)
        w.nonces.0 w'.nonces.0 (sym w.bytes ∙ w'.bytes) in
    (
      (na, nb),
      order-same a.identity_key b.identity_key a'.identity_key b'.identity_key ids.0 ids.1,
      order-same (filled a.privilege_key) (filled b.privilege_key) (filled a'.privilege_key)
          (filled b'.privilege_key) privs.0 privs.1,
    )

order-symmetric : (x y : Bytes) → order x y ≡ order y x
order-symmetric x y = elim (Bool-cases (bytes_lt x y)) [
  | inl l ↦ rw (l, bytes_lt-asymmetric x y l) refl
  | inr l ↦ elim (Bool-cases (bytes_lt y x)) [
    | inl m ↦ rw (l, m) refl
    | inr m ↦ rw (bytes_lt-total x y l m) refl
  ]
]

-- A device with the keys of one party and the nonce of another.
abbrev pub with_nonce_of : Party → Party → Party
with_nonce_of p q = record p { nonce = q.nonce }

-- If two parties have a transcript, and the devices change places while the nonces stay with the
-- roles, the transcript is the same: the order of the keys does not depend on the roles.
pub transcript-symmetric :
    (a b : Party) (t : Bytes)
    → transcript a b ≡ ok t
    → transcript (with_nonce_of b a) (with_nonce_of a b) ≡ ok t
transcript-symmetric a b t e =
    let w = transcript-IsTranscript a b t e in
    IsTranscript-transcript (with_nonce_of b a) (with_nonce_of a b) t (record {
      ids = (w.ids.1, w.ids.0);
      two_devices = λ q. w.two_devices (sym q);
      privs = (w.privs.1, w.privs.0);
      nonces = w.nonces;
      bytes =
          w.bytes
          ∙ rw
              (
                order-symmetric a.identity_key b.identity_key,
                order-symmetric (filled a.privilege_key) (filled b.privilege_key),
              )
              refl;
    })
