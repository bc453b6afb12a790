-- ===== src/Session/Auth/Gate.antt =====
-- What `authorizeInbound` and `datagramAllowed` let through.
use open_air.Prelude.{
  ℕ, ◌≡◌, ◌⊎◌, inl, inr, refl, sym, ap, subst, ◌∙◌, Bool, true, false, ◌&&◌, Bool-cases, List, [],
  ◌∷◌, ◌==◌, length, Bytes, Option, none, some, Option-cases, arith,
}
use open_air.Prelude.Int.{ℤ, leb_ℤ, ltb_ℤ}
use open_air.Identity.Types.{DeviceId, Peer, TrustLevel, level_trusted}
use open_air.Session.Envelope.{ErrorCode, no_error, unauthorised}
use open_air.Session.Auth.{
  event_of, AuthProof, AuthVerifier, AuthEvent, is_no_error, PeerView, consume, required_level,
  current_record, refreshed, datagram_allowed, decide, authorize_inbound,
}
use open_air.Session.Auth.Spend.{Spent, consume-Spent}

-- An operation that a proof alone may open.
abbrev pub Privileged : Option TrustLevel → Type 0
Privileged declared = leb_ℤ (required_level declared) level_trusted ≡ false

abbrev pub too_low : PeerView → Option TrustLevel → Bool
too_low r declared = r.have_record && ltb_ℤ r.peer.level (required_level declared)

-- The trust store, asked now, holds this record of the peer.
abbrev pub Holds : PeerView → Peer → Type 0
Holds v stored =
    (find : DeviceId → Option Peer) × (v.peer_lookup ≡ some find)
    × ((length v.peer.device_id == 0) ≡ false)
    × (find v.peer.device_id ≡ some stored)

-- There is no trust store to ask, or no id to ask it for, or it holds no record of the peer.
abbrev pub HoldsNone : PeerView → Type 0
HoldsNone v =
    (v.peer_lookup ≡ none)
    ⊎ ((length v.peer.device_id == 0) ≡ true)
    ⊎ ((find : DeviceId → Option Peer) × (v.peer_lookup ≡ some find)
        × (find v.peer.device_id ≡ none))

-- The key and the level of a peer are those of the record that the trust store holds now, and only
-- where it holds none those of the Hello; and the level is not below what is required.
abbrev pub Standing : PeerView → Option TrustLevel → Bytes → Type 0
Standing v declared key =
    ((stored : Peer) × Holds v stored
      × (key ≡ stored.privilege_public_key)
      × (ltb_ℤ stored.level (required_level declared) ≡ false))
    ⊎ (HoldsNone v
        × (key ≡ v.peer.privilege_public_key)
        × ((v.have_record && ltb_ℤ v.peer.level (required_level declared)) ≡ false))

-- What `refreshed` finds.
pub refreshed-cases :
    (v : PeerView)
    → ((stored : Peer) × Holds v stored
        × ((refreshed v).peer.privilege_public_key ≡ stored.privilege_public_key)
        × ((refreshed v).peer.level ≡ stored.level)
        × ((refreshed v).have_record ≡ true))
      ⊎ (HoldsNone v × (refreshed v ≡ v))
unfolding refreshed current_record
refreshed-cases v = elim (Option-cases v.peer_lookup) [
  | inl without ↦ inr (inl without, simp (refreshed, current_record, without) refl)
  | inr (find, e) ↦ elim (Bool-cases (length v.peer.device_id == 0)) [
    | inl nameless ↦ inr (inr (inl nameless), simp (refreshed, current_record, e, nameless) refl)
    | inr named ↦ elim (Option-cases (find v.peer.device_id)) [
      | inl absent ↦
          inr (inr (inr (find, e, absent)), simp (refreshed, current_record, e, named, absent) refl)
      | inr (stored, found) ↦ inl (
        stored,
        (find, e, named, found),
        rw (refreshed, current_record, e, named, found) refl,
        rw (refreshed, current_record, e, named, found) refl,
        rw (refreshed, current_record, e, named, found) refl,
      )
    ]
  ]
]

refreshed-Standing :
    (v : PeerView) (declared : Option TrustLevel)
    → too_low (refreshed v) declared ≡ false
    → Standing v declared (refreshed v).peer.privilege_public_key
refreshed-Standing v declared high = elim (refreshed-cases v) [
  | inl (stored, holds, key, level, known) ↦ inl (stored, holds, key, rw (known, level) at high)
  | inr (none_held, same) ↦ inr (
    none_held,
    ap (λ r. r.peer.privilege_public_key) same,
    subst (λ r. too_low r declared ≡ false) same high,
  )
]

-- What the decision let through, at a level above Trusted.
decide_allowed :
    (r : PeerView) (declared : Option TrustLevel) (cap_id msg_type : ℕ) (owned : Bool)
    (code : ErrorCode)
    → Privileged declared
    → (decide r declared cap_id msg_type owned code).1 ≡ true
    → (owned ≡ true)
      × (too_low r declared ≡ false)
      × ((decide r declared cap_id msg_type owned code).0 ≡ true)
unfolding decide
decide_allowed r declared cap_id msg_type owned code privileged e =
    elim (Bool-cases (is_no_error code)) [
      | inr refused ↦ absurd (grind (arith, rw refused at e))
      | inl found ↦ elim (Bool-cases (too_low r declared)) [
        | inl low ↦ absurd (grind (arith, rw (found, privileged, low) at e))
        | inr high ↦ elim (Bool-cases owned) [
          | inl proven ↦ (proven, high, rw (found, privileged, high, proven) refl)
          | inr without ↦ absurd (grind (arith, rw (found, privileged, high, without) at e))
        ]
      ]
    ]

module _ (verify : Bytes → Bytes → Bytes → Bool) (a a' : AuthVerifier) (v : PeerView) (now : ℤ)
    (declared : Option TrustLevel) (cap_id msg_type : ℕ) where
  -- A message that reaches a capability above Trusted carried a proof that verifies for this very
  -- operation, fresh, with a nonce that was not used, and spent by this message. It verifies under
  -- the privilege key of the record that the trust store holds now, and that record is not below the
  -- level; only where the store gives no record is it the key of the Hello, whose record, if there
  -- was one, is not below the level.
  pub authorize_inbound-Spent :
      (owned : Bool) (events : List AuthEvent)
      → Privileged declared
      → ◌≡◌ {A = AuthVerifier × Bool × Bool × List AuthEvent}
          (authorize_inbound verify a v now declared cap_id msg_type)
          (a', owned, true, events)
      → ((p : AuthProof) × (key : Bytes) × Spent verify a now key cap_id msg_type p a'
          × Standing v declared key)
        × (owned ≡ true)
  unfolding authorize_inbound
  authorize_inbound-Spent owned events privileged e =
      let r = refreshed v in
      let (b, proved, code) = consume verify a now r.peer.privilege_public_key cap_id msg_type in
      let (proven, high, reported) =
        decide_allowed r declared cap_id msg_type proved code privileged (ap (λ t. t.2) e) in
      let spent : b ≡ a' = ap (λ t. t.0) e in
      let call : ◌≡◌ {A = AuthVerifier × Bool × ErrorCode} (b, proved, code) (a', true, code) =
        cc in
      let key = r.peer.privilege_public_key in
      let (p, taken) = consume-Spent verify a a' now key cap_id msg_type code call in
      ((p, key, taken, refreshed-Standing v declared high), sym (ap (λ t. t.1) e) ∙ reported)

-- A refusal is reported, and so is what a proof opened: one event, with the operation and the
-- decision. Only a message that is let through without a proof leaves none.
pub decide_reported :
    (r : PeerView) (declared : Option TrustLevel) (cap_id msg_type : ℕ) (owned : Bool)
    (code : ErrorCode)
    → (decide r declared cap_id msg_type owned code ≡ (false, true, []))
      ⊎ ((c : ErrorCode) × (decide r declared cap_id msg_type owned code
            ≡ (false, false, event_of r cap_id msg_type false false c ∷ [])))
      ⊎ (decide r declared cap_id msg_type owned code
          ≡ (true, true, event_of r cap_id msg_type true true no_error ∷ []))
unfolding decide
decide_reported r declared cap_id msg_type owned code = elim (Bool-cases (is_no_error code)) [
  | inr refused ↦ inr (inl (code, rw refused refl))
  | inl found ↦ elim (Bool-cases (leb_ℤ (required_level declared) level_trusted)) [
    | inl common ↦ elim (Bool-cases owned) [
      | inl proven ↦ inr (inr (rw (found, common, proven) refl))
      | inr without ↦ inl (rw (found, common, without) refl)
    ]
    | inr privileged ↦ elim (Bool-cases (too_low r declared)) [
      | inl low ↦ inr (inl (unauthorised, rw (found, privileged, low) refl))
      | inr high ↦ elim (Bool-cases owned) [
        | inl proven ↦ inr (inr (rw (found, privileged, high, proven) refl))
        | inr without ↦ inr (inl (unauthorised, rw (found, privileged, high, without) refl))
      ]
    ]
  ]
]

-- The level of the record that the trust store holds now.
too_low_now :
    (v : PeerView) (current : Peer) (declared : Option TrustLevel)
    → current_record v ≡ some current
    → ltb_ℤ current.level (required_level declared) ≡ true
    → too_low (refreshed v) declared ≡ true
unfolding refreshed
too_low_now v current declared e low = rw (refreshed, e, low) refl

-- Where the trust store holds a record of the peer now, and that record is below what the capability
-- requires (more than Trusted), nothing of the peer reaches the capability, neither a message with
-- whatever proof it carries nor a datagram, whatever level the session had learnt before.
pub demoted_lem :
    (verify : Bytes → Bytes → Bytes → Bool) (a : AuthVerifier) (v : PeerView) (current : Peer)
    (now : ℤ) (declared : Option TrustLevel) (cap_id msg_type : ℕ)
    → Privileged declared
    → current_record v ≡ some current
    → ltb_ℤ current.level (required_level declared) ≡ true
    → ((authorize_inbound verify a v now declared cap_id msg_type).2 ≡ false)
      × (datagram_allowed v declared ≡ false)
unfolding authorize_inbound decide datagram_allowed
demoted_lem verify a v current now declared cap_id msg_type privileged e low =
    let barred = too_low_now v current declared e low in
    let r = refreshed v in
    let (b, proved, code) = consume verify a now r.peer.privilege_public_key cap_id msg_type in
    (
      elim (Bool-cases (is_no_error code)) [
        | inl found ↦ rw (found, privileged, barred) refl
        | inr refused ↦ rw refused refl
      ],
      rw (privileged, barred) refl,
    )
