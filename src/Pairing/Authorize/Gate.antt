-- ===== src/Pairing/Authorize/Gate.antt =====
-- Who gets past the gate.
use open_air.Prelude.{
  ◌<◌, ◌≡◌, ◌↔◌, ◌⊎◌, inl, inr, refl, sym, ap, ◌∙◌, true, false, Bool-cases, Option-cases, Option,
  none, some, if◌then◌else◌, length, Bytes, bytes_eq, bytes_eq_refl, bytes_eq→eq, ltb→lt, lt→ltb,
  arith,
}
use open_air.Prelude.Int.{ℤ, ltb_ℤ, ◌<ℤ◌}
use open_air.Identity.Types.{level_unpaired, Peer}
use open_air.Identity.TrustStore.{TrustStoreFile, get}
use open_air.Pairing.Guard.{Handler}
use open_air.Pairing.Authorize.{unpaired, pairing_closed, check_pinned, window_open, authorize}

-- A peer that is paired, and presented the key that was pinned.
abbrev pub IsPinned : Handler → Peer → Type 0
IsPinned h peer =
    (p : Peer) × (get h.store peer.device_id ≡ some p)
    × (level_unpaired <ℤ p.level)
    × (p.identity_public_key ≡ peer.identity_public_key)
    × (0 < length peer.identity_public_key)

-- A peer that is not paired, while a pairing window is open.
abbrev pub IsPairing : Handler → Peer → Type 0
IsPairing h peer =
    (0 < h.window)
    × ((get h.store peer.device_id ≡ none)
        ⊎ ((p : Peer) × (get h.store peer.device_id ≡ some p)
            × (ltb_ℤ level_unpaired p.level ≡ false)))

some_injective : {p q : Peer} → some p ≡ some q → p ≡ q
some_injective e = cc

ltb_ℤ→lt : (a b : ℤ) → ltb_ℤ a b ≡ true → a <ℤ b
ltb_ℤ→lt a b h = ground arith

lt→ltb_ℤ : (a b : ℤ) → a <ℤ b → ltb_ℤ a b ≡ true
lt→ltb_ℤ a b h = ground arith

not_both :
    (p q : Peer) {m : Option Peer}
    → m ≡ some p
    → m ≡ some q
    → ltb_ℤ level_unpaired p.level ≡ false
    → level_unpaired <ℤ q.level
    → ⊥
not_both p q e found low high =
    let pq : p ≡ q = some_injective (sym e ∙ found) in
    grind
      (arith, low, ap (λ x. ltb_ℤ level_unpaired x.level) pq, lt→ltb_ℤ level_unpaired q.level high)

check_pinned_iff :
    (stored presented : Peer)
    → (check_pinned stored presented ≡ none) ↔ (
        (stored.identity_public_key ≡ presented.identity_public_key)
        × (0 < length presented.identity_public_key))
unfolding check_pinned
check_pinned_iff stored presented =
    elim (Bool-cases (bytes_eq stored.identity_public_key presented.identity_public_key)) [
      | inl e ↦
          let q = bytes_eq→eq stored.identity_public_key presented.identity_public_key e in
          ground (arith, q)
      | inr e ↦ ground (arith, bytes_eq_refl stored.identity_public_key)
    ]

module _ {Io : Type 0} (sha256 : Bytes → Bytes) (write_file : TrustStoreFile → Option Io)
    (now : ℤ) where
  authorize_unknown :
      (h : Handler) (peer : Peer)
      → get h.store peer.device_id ≡ none
      → (authorize sha256 write_file now h peer).1
        ≡ (if window_open h then none else some pairing_closed)
  unfolding authorize
  authorize_unknown h peer e = rw (authorize, e) refl

  authorize_unpaired :
      (h : Handler) (peer p : Peer)
      → get h.store peer.device_id ≡ some p
      → ltb_ℤ level_unpaired p.level ≡ false
      → (authorize sha256 write_file now h peer).1 ≡ (if window_open h then none else some unpaired)
  unfolding authorize
  authorize_unpaired h peer p e l = rw (authorize, e, l) refl

  authorize_paired :
      (h : Handler) (peer p : Peer)
      → get h.store peer.device_id ≡ some p
      → ltb_ℤ level_unpaired p.level ≡ true
      → (authorize sha256 write_file now h peer).1 ≡ check_pinned p peer
  unfolding authorize
  authorize_paired h peer p e l = elim (Option-cases (check_pinned p peer)) [
    | inl c ↦ rw (authorize, e, l, c) refl
    | inr (x, c) ↦ rw (authorize, e, l, c) refl
  ]

  unknown_iff :
      (h : Handler) (peer : Peer)
      → get h.store peer.device_id ≡ none
      → ((authorize sha256 write_file now h peer).1 ≡ none) ↔ (IsPinned h peer ⊎ IsPairing h peer)
  unknown_iff h peer e =
      let a = authorize_unknown h peer e in
      elim (Bool-cases (window_open h)) [
        | inl w ↦ (λ q. inr (ltb→lt 0 h.window w, inl e), λ x. a ∙ rw w refl)
        | inr w ↦ (λ q. absurd (grind (arith, a, q, w)), closed w)
      ]
    where
      closed :
          window_open h ≡ false
          → (IsPinned h peer ⊎ IsPairing h peer)
          → (authorize sha256 write_file now h peer).1 ≡ none
      closed w (inl (q, found, high, same, some_key)) = absurd (grind (arith, e, found))
      closed w (inr (o, r)) = absurd (grind (arith, lt→ltb 0 h.window o, w))

  unpaired_iff :
      (h : Handler) (peer p : Peer)
      → get h.store peer.device_id ≡ some p
      → ltb_ℤ level_unpaired p.level ≡ false
      → ((authorize sha256 write_file now h peer).1 ≡ none) ↔ (IsPinned h peer ⊎ IsPairing h peer)
  unpaired_iff h peer p e l =
      let a = authorize_unpaired h peer p e l in
      elim (Bool-cases (window_open h)) [
        | inl w ↦ (λ q. inr (ltb→lt 0 h.window w, inr (p, e, l)), λ x. a ∙ rw w refl)
        | inr w ↦ (λ q. absurd (grind (arith, a, q, w)), closed w)
      ]
    where
      closed :
          window_open h ≡ false
          → (IsPinned h peer ⊎ IsPairing h peer)
          → (authorize sha256 write_file now h peer).1 ≡ none
      closed w (inl (q, found, high, same, some_key)) = absurd (not_both p q e found l high)
      closed w (inr (o, r)) = absurd (grind (arith, lt→ltb 0 h.window o, w))

  paired_iff :
      (h : Handler) (peer p : Peer)
      → get h.store peer.device_id ≡ some p
      → ltb_ℤ level_unpaired p.level ≡ true
      → ((authorize sha256 write_file now h peer).1 ≡ none) ↔ (IsPinned h peer ⊎ IsPairing h peer)
  paired_iff h peer p e l =
      let a = authorize_paired h peer p e l in
      (
        λ q.
            let (same, some_key) = (check_pinned_iff p peer).0 (sym a ∙ q) in
            inl (p, e, ltb_ℤ→lt level_unpaired p.level l, same, some_key),
        λ x. a ∙ (check_pinned_iff p peer).1 (pinned x),
      )
    where
      pinned :
          (IsPinned h peer ⊎ IsPairing h peer)
          → (p.identity_public_key ≡ peer.identity_public_key)
            × (0 < length peer.identity_public_key)
      pinned (inl (q, found, high, same, some_key)) =
          let pq : p ≡ q = some_injective (sym e ∙ found) in
          (ap (λ x. x.identity_public_key) pq ∙ same, some_key)
      pinned (inr (o, inl absent)) = absurd (grind (arith, e, absent))
      pinned (inr (o, inr (q, found, low))) =
          let pq : p ≡ q = some_injective (sym e ∙ found) in
          absurd (grind (arith, l, low, ap (λ x. ltb_ℤ level_unpaired x.level) pq))

  -- The gate admits a peer exactly if it is paired and presented the key that was pinned, or if it
  -- is not paired and a pairing window is open: an open window lets no paired peer in with another key.
  pub authorize_iff :
      (h : Handler) (peer : Peer)
      → ((authorize sha256 write_file now h peer).1 ≡ none) ↔ (IsPinned h peer ⊎ IsPairing h peer)
  authorize_iff h peer = elim (Option-cases (get h.store peer.device_id)) [
    | inl absent ↦ unknown_iff h peer absent
    | inr (p, found) ↦ elim (Bool-cases (ltb_ℤ level_unpaired p.level)) [
      | inr low ↦ unpaired_iff h peer p found low
      | inl high ↦ paired_iff h peer p found high
    ]
  ]
