-- ===== src/Session/Hello/Admission.antt =====
-- What is true of the peer of a session that came about.
use open_air.Prelude.{
  min, ◌≡◌, ◌⊎◌, inl, inr, refl, sym, ap, ◌∙◌, Bool, true, false, Bool-cases, true_of_not,
  bytes_eq→eq, ltb, length, Bytes, Option, none, some, Option-cases, Result, Result-cases, ok, err,
  guarded_ok, ok_injective, arith,
}
use open_air.Prelude.Io.{Reader}
use open_air.Identity.Types.{DeviceId, Peer}
use open_air.Identity.DeviceId.{derive_device_id}
use open_air.Session.Envelope.{Envelope, ErrorCode, decode_envelope}
use open_air.Session.Auth.Sending.{send}
use open_air.Session.Hello.{
  Hello, Config, protocol_version, msg_hello, registered, negotiate, Established, local_hello,
  claimed_peer, with_stored, joined, accept_hello, read_hello, exchange_hello, authorised,
  control_stream, pins_another, new_session,
}

module _ (marshal : Hello → Option Bytes) (unmarshal : Bytes → Option Hello) (cfg : Config) where
  -- The first message on the control stream is a Hello that names the device id of the key, and the
  -- session is what it and the configuration settle.
  pub record Greeted (derived : DeviceId) (peer_key : Bytes) (ctrl : Reader) (s : Established)
      : Type 0 where
    pub env : Envelope
    pub remote : Hello
    pub first : decode_envelope ctrl ≡ ok (env, s.ctrl)
    pub is_hello : (env.cap_id ≡ 0) × (env.msg_type ≡ msg_hello)
    pub decoded : unmarshal env.payload ≡ some remote
    pub own_id : remote.device_id ≡ derived
    pub greeting : send 0 msg_hello (marshal (local_hello cfg)) ≡ ok s.sent
    pub version : s.version ≡ min protocol_version remote.proto_version
    pub caps : s.caps ≡ negotiate (registered cfg.handlers) remote.capabilities
    pub record_of :
        ◌≡◌ {A = Peer × Bool}
          (s.peer, s.have_record)
          (joined cfg (claimed_peer cfg.peer remote derived peer_key) derived)

  module _ (derived : DeviceId) (peer_key : Bytes) where
    read_hello-ok :
        (env : Envelope) (remote : Hello)
        → read_hello unmarshal env ≡ ok remote
        → (env.cap_id ≡ 0) × (env.msg_type ≡ msg_hello) × (unmarshal env.payload ≡ some remote)
    unfolding read_hello
    read_hello-ok env remote h = ground arith

    exchange_hello-Greeted :
        (ctrl : Reader) (s : Established)
        → exchange_hello marshal unmarshal cfg derived peer_key ctrl ≡ ok s
        → Greeted derived peer_key ctrl s
    unfolding exchange_hello accept_hello
    exchange_hello-Greeted ctrl s h =
        elim (Result-cases (send 0 msg_hello (marshal (local_hello cfg)))) [
          | inr (e, w) ↦ absurd (grind (arith, rw (exchange_hello, w) at h))
          | inl (sent, w) ↦ elim (Result-cases (decode_envelope ctrl)) [
            | inr (e, d) ↦ absurd (grind (arith, rw (exchange_hello, w, d) at h))
            | inl ((env, ctrl'), d) ↦ elim (Result-cases (read_hello unmarshal env)) [
              | inr (e, r) ↦ absurd (grind (arith, rw (exchange_hello, w, d, r) at h))
              | inl (remote, r) ↦
                  let g = guarded_ok _ _ _ (rw (exchange_hello, w, d, r, accept_hello) at h) in
                  let made = ok_injective g.1 in
                  let (c, t, u) = read_hello-ok env remote r in
                  record {
                    env = env;
                    remote = remote;
                    first = d ∙ ap (λ x. ok (env, x)) (ap (λ x. x.ctrl) made);
                    is_hello = (c, t);
                    decoded = u;
                    own_id = bytes_eq→eq remote.device_id derived (true_of_not _ g.0);
                    greeting = w ∙ ap ok (ap (λ x. x.sent) made);
                    version = sym (ap (λ x. x.version) made);
                    caps = sym (ap (λ x. x.caps) made);
                    record_of = sym (ap (λ x. (x.peer, x.have_record)) made);
                  }
            ]
          ]
        ]

-- Where the level and the privilege key come from: the record of the trust store for this device id
-- if there is one, and the configuration's record otherwise. The Hello has no part in it.
pub Ranked : Config → DeviceId → Established → Type 0
Ranked cfg derived s =
    ((look : DeviceId → Option Peer) × (stored : Peer) × (cfg.peer_lookup ≡ some look)
      × (look derived ≡ some stored)
      × (s.have_record ≡ true)
      × (s.peer.level ≡ stored.level)
      × (s.peer.privilege_public_key ≡ stored.privilege_public_key))
    ⊎ ((s.peer.level ≡ cfg.peer.level)
        × (s.peer.privilege_public_key ≡ cfg.peer.privilege_public_key)
        × (((cfg.peer_lookup ≡ none)
              × (s.have_record ≡ ltb 0 (length cfg.peer.privilege_public_key)))
            ⊎ ((look : DeviceId → Option Peer) × (cfg.peer_lookup ≡ some look)
                × (look derived ≡ none)
                × (s.have_record ≡ false))))

joined-Ranked :
    (cfg : Config) (remote : Hello) (derived : DeviceId) (peer_key : Bytes) (s : Established)
    → ◌≡◌ {A = Peer × Bool}
        (s.peer, s.have_record)
        (joined cfg (claimed_peer cfg.peer remote derived peer_key) derived)
    → Ranked cfg derived s × (s.peer.device_id ≡ derived) × (s.peer.identity_public_key ≡ peer_key)
unfolding Ranked joined claimed_peer with_stored
joined-Ranked cfg remote derived peer_key s h = elim (Option-cases cfg.peer_lookup) [
  | inl e ↦
      let h' = rw (joined, e, claimed_peer) at h in
      (
        inr (
          ap (λ x. x.0.level) h',
          ap (λ x. x.0.privilege_public_key) h',
          inl (e, ap (λ x. x.1) h'),
        ),
        ap (λ x. x.0.device_id) h',
        ap (λ x. x.0.identity_public_key) h',
      )
  | inr (look, e) ↦ elim (Option-cases (look derived)) [
    | inl f ↦
        let h' = rw (joined, e, f, claimed_peer) at h in
        (
          inr (
            ap (λ x. x.0.level) h',
            ap (λ x. x.0.privilege_public_key) h',
            inr (look, e, f, ap (λ x. x.1) h'),
          ),
          ap (λ x. x.0.device_id) h',
          ap (λ x. x.0.identity_public_key) h',
        )
    | inr (stored, f) ↦
        let h' = rw (joined, e, f, with_stored, claimed_peer) at h in
        (
          inl (
            look,
            stored,
            e,
            f,
            ap (λ x. x.1) h',
            ap (λ x. x.0.level) h',
            ap (λ x. x.0.privilege_public_key) h',
          ),
          ap (λ x. x.0.device_id) h',
          ap (λ x. x.0.identity_public_key) h',
        )
  ]
]

-- `cfg.Authorize`, if there is one, let the peer in.
pub Welcome : Config → Established → Type 0
Welcome cfg s =
    (cfg.authorize ≡ none)
    ⊎ ((admits : Peer → Bool) × (cfg.authorize ≡ some admits) × (admits s.peer ≡ true))

module _ (marshal : Hello → Option Bytes) (unmarshal : Bytes → Option Hello)
    (sha256 : Bytes → Bytes) (cfg : Config) where
  authorised-Welcome : (s s' : Established) → authorised cfg s ≡ ok s' → (s ≡ s') × Welcome cfg s'
  unfolding authorised Welcome
  authorised-Welcome s s' h = elim (Option-cases cfg.authorize) [
    | inl e ↦ (ok_injective (rw (authorised, e) at h), inl e)
    | inr (admits, e) ↦ elim (Bool-cases (admits s.peer)) [
      | inr f ↦ absurd (grind (arith, rw (authorised, e, f) at h))
      | inl f ↦
          let same : s ≡ s' = ok_injective (rw (authorised, e, f) at h) in
          (same, inr (admits, e, ap (λ x. admits x.peer) (sym same) ∙ f))
    ]
  ]

  -- Whose session it is, and what it rests on.
  unfoldable pub Attested :
      Result ErrorCode Bytes → Option Reader → Option Reader → Established → Type 0
  Attested key opened accepted s =
      (peer_key : Bytes) × (ctrl : Reader) × (key ≡ ok peer_key)
      × (control_stream cfg opened accepted ≡ some ctrl)
      × Greeted marshal unmarshal cfg (derive_device_id sha256 peer_key) peer_key ctrl s
      × (s.peer.device_id ≡ derive_device_id sha256 peer_key)
      × (s.peer.identity_public_key ≡ peer_key)
      × (pins_another cfg (derive_device_id sha256 peer_key) peer_key ≡ false)
      × Ranked cfg (derive_device_id sha256 peer_key) s
      × Welcome cfg s

  -- A session comes about only with the device that holds the TLS key: the first message on its
  -- control stream is a Hello with the device id of the key, which is the id and the key in the
  -- session's record; no record that was pinned for the connection has another key or another id;
  -- the level and the privilege key come from the trust store, or from the configuration where the
  -- store has no record; and `Authorize` let that record in.
  pub new_session-Greeted :
      (key : Result ErrorCode Bytes) (opened accepted : Option Reader) (s : Established)
      → new_session marshal unmarshal sha256 cfg key opened accepted ≡ ok s
      → Attested key opened accepted s
  unfolding new_session Attested
  new_session-Greeted (err code) opened accepted s h = absurd (grind (arith, h))
  new_session-Greeted (ok peer_key) opened accepted s h =
      let derived = derive_device_id sha256 peer_key in
      elim (Bool-cases (pins_another cfg derived peer_key)) [
        | inl pinned ↦ absurd (grind (arith, rw (new_session, pinned) at h))
        | inr free ↦ elim (Option-cases (control_stream cfg opened accepted)) [
          | inl e ↦ absurd (grind (arith, rw (new_session, free, e) at h))
          | inr (ctrl, e) ↦
              elim (Result-cases (exchange_hello marshal unmarshal cfg derived peer_key ctrl)) [
                | inr (x, f) ↦ absurd (grind (arith, rw (new_session, free, e, f) at h))
                | inl (s₀, f) ↦
                    let (same, welcome) =
                      authorised-Welcome s₀ s (rw (new_session, free, e, f) at h) in
                    let greeted =
                      exchange_hello-Greeted marshal unmarshal cfg derived peer_key ctrl s
                        (f ∙ ap ok same) in
                    let (ranked, own_id, own_key) =
                      joined-Ranked cfg greeted.remote derived peer_key s greeted.record_of in
                    (peer_key, ctrl, refl, e, greeted, own_id, own_key, free, ranked, welcome)
              ]
        ]
      ]
