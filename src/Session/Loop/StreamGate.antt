-- ===== src/Session/Loop/StreamGate.antt =====
-- What reaches a handler outside the control stream.
use open_air.Prelude.{
  ℕ, ◌≡◌, ◌⊎◌, inl, inr, sym, ap, subst, ◌∙◌, Bool, true, false, Bool-cases, not, ◌||◌, ◌==◌,
  get_or, length, Bytes, Option, some, Option-cases, arith,
}
use open_air.Prelude.Int.{ℤ, leb_ℤ, ltb_ℤ}
use open_air.Prelude.NumMaps.{find, has_key}
use open_air.Identity.Types.{TrustLevel, level_trusted, DeviceId, Peer}
use open_air.Session.Envelope.{Envelope}
use open_air.Session.Auth.{
  AuthProof, AuthVerifier, PeerView, required_level, refreshed, receive, datagram_allowed,
}
use open_air.Session.Auth.Gate.{Holds, HoldsNone, too_low, refreshed-cases}
use open_air.Session.Hello.{HandlerInfo}
use open_air.Session.Loop.{Inbound, Sess, declared_level, view_of, dispatch_datagram}
use open_air.Session.Loop.Runs.{live_view}
use open_air.Session.Loop.Gated.{Proven}

some_injective : {a b : ℕ} → some a ≡ some b → a ≡ b
some_injective h = cc

-- There is a record of the peer that is not below what is required: the trust store's, where it holds
-- one now, and only where it holds none that of the Hello.
abbrev pub Recorded : PeerView → Option TrustLevel → Type 0
Recorded v declared =
    ((stored : Peer) × Holds v stored × (ltb_ℤ stored.level (required_level declared) ≡ false))
    ⊎ (HoldsNone v
        × (v.have_record ≡ true)
        × (ltb_ℤ v.peer.level (required_level declared) ≡ false))

refreshed-Recorded :
    (v : PeerView) (declared : Option TrustLevel)
    → (refreshed v).have_record ≡ true
    → too_low (refreshed v) declared ≡ false
    → Recorded v declared
refreshed-Recorded v declared known high = elim (refreshed-cases v) [
  | inl (stored, holds, key, level, there) ↦ inl (stored, holds, rw (there, level) at high)
  | inr (none_held, same) ↦
      let have : v.have_record ≡ true = subst (λ r. r.have_record ≡ true) same known in
      let fits : too_low v declared ≡ false = subst (λ r. too_low r declared ≡ false) same high in
      inr (none_held, have, rw have at fits)
]

allowed_lem :
    (v : PeerView) (declared : Option TrustLevel)
    → datagram_allowed v declared ≡ true
    → (leb_ℤ (required_level declared) level_trusted ≡ true) ⊎ Recorded v declared
unfolding datagram_allowed
allowed_lem v declared h = elim (Bool-cases (leb_ℤ (required_level declared) level_trusted)) [
  | inl common ↦ inl common
  | inr above ↦ elim (Bool-cases (too_low (refreshed v) declared)) [
    | inl low ↦ absurd (grind (arith, rw (datagram_allowed, above, low) at h))
    | inr high ↦ inr (refreshed-Recorded v declared (rw (datagram_allowed, above, high) at h) high)
  ]
]

module _ (verify : Bytes → Bytes → Bytes → Bool) (unmarshal : Bytes → Option AuthProof)
    (look : Option (DeviceId → Option Peer)) (now : ℤ) (s : Sess) where
  -- The session's verifier, or as it is with the stream's own proof received.
  pub Holding : AuthVerifier → Type 0
  Holding a = (a ≡ s.auth) ⊎ ((payload : Bytes) × (a ≡ (receive s.auth (unmarshal payload)).0))

  -- What a stream's operation was let through on: more than Trusted takes a proof.
  pub StreamGate : Inbound → Type 0
  StreamGate i =
      ((i.env.cap_id == 0) ≡ false)
      × (has_key i.env.cap_id s.handlers ≡ true)
      × (has_key i.env.cap_id s.caps ≡ true)
      × ((leb_ℤ (required_level (declared_level s.handlers i.env.cap_id)) level_trusted ≡ true)
          ⊎ ((i.owned ≡ true)
              × ((a : AuthVerifier) × Holding a
                  × Proven verify a (live_view s look) now (declared_level s.handlers i.env.cap_id)
                      i.env.cap_id i.env.msg_type)))

  -- A datagram reaches a handler only if its first byte names a negotiated capability whose handler
  -- takes datagrams, and if, where that handler asks for more than Trusted, the record that the trust
  -- store holds of the peer now is not below that level, or, only where the store gives no record, the
  -- Hello came with one that is not below it. No proof is asked of a datagram.
  pub dispatch_datagram_lem :
      (b : Bytes) (cap_id : ℕ)
      → dispatch_datagram verify unmarshal look now s b ≡ some cap_id
      → (h : HandlerInfo) × (get_or b 0 0 ≡ cap_id)
        × (find cap_id s.handlers ≡ some h)
        × (h.takes_datagrams ≡ true)
        × (has_key cap_id s.caps ≡ true)
        × ((length b == 0) ≡ false)
        × ((leb_ℤ (required_level h.declared_level) level_trusted ≡ true)
            ⊎ Recorded (live_view s look) h.declared_level)
  unfolding dispatch_datagram datagram_allowed view_of
  dispatch_datagram_lem b cap_id e = elim (Option-cases (find (get_or b 0 0) s.handlers)) [
    | inl n ↦ absurd (grind (arith, rw (dispatch_datagram, n) at e))
    | inr (h, f) ↦
        let e' = rw (dispatch_datagram, f) at e in
        let at = get_or b 0 0 in
        elim (Bool-cases ((length b == 0) || not h.takes_datagrams || not (has_key at s.caps))) [
          | inl shut ↦ absurd (grind (arith, rw shut at e'))
          | inr usable ↦
              let e'' = rw usable at e' in
              elim (Bool-cases (datagram_allowed (view_of s look) h.declared_level)) [
                | inr barred ↦ absurd (grind (arith, rw barred at e''))
                | inl allowed ↦
                    let this : at ≡ cap_id = some_injective (rw allowed at e'') in
                    (
                      h,
                      this,
                      ap (λ k. find k s.handlers) (sym this) ∙ f,
                      ground (arith, usable),
                      ap (λ k. has_key k s.caps) (sym this) ∙ ground (arith, usable),
                      ground (arith, usable),
                      allowed_lem (view_of s look) h.declared_level allowed,
                    )
              ]
        ]
  ]
