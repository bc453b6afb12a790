-- ===== src/Session/Hello/Handshake.antt =====
-- Two devices that send their Hello to one another.
use open_air.Prelude.{
  ℕ, ◌≡◌, refl, false, ◌++◌, ltb, ◌&&◌, Bytes, bytes_eq_refl, Option, some, ok, arith,
}
use open_air.Prelude.Io.{Reader, ReadError}
use open_air.Prelude.NumMaps.{find, has_key}
use open_air.Identity.DeviceId.{derive_device_id}
use open_air.Session.Auth.{new_auth_verifier}
use open_air.Session.Auth.Sending.{send}
use open_air.Session.Auth.Sending.Delivery.{decode_envelope-send}
use open_air.Session.Hello.{
  Hello, Config, protocol_version, msg_hello, registered, local_capabilities, negotiate,
  Established, local_hello, joined, claimed_peer, accept_hello, read_hello, exchange_hello,
  authorised, control_stream, pins_another, new_session,
}
use open_air.Session.Hello.Negotiation.{usable, negotiate_agree}

-- The session with a device that sent its own Hello.
abbrev met : Config → Config → Bytes → Bytes → Reader → Established
met here there peer_key sent ctrl =
    let (p, have_record) =
      joined here (claimed_peer here.peer (local_hello there) there.local_id peer_key)
        there.local_id in
    record {
      handlers = registered here.handlers;
      peer = p;
      have_record = have_record;
      version = protocol_version;
      caps = negotiate (registered here.handlers) (local_capabilities (registered there.handlers));
      auth = new_auth_verifier here.local_id;
      sent = sent;
      ctrl = ctrl;
    }

module _ (marshal : Hello → Option Bytes) (unmarshal : Bytes → Option Hello)
    (sha256 : Bytes → Bytes) where
  -- What a device is told by a Hello that `there` sent.
  heard :
      (here there : Config) (derived peer_key sent bytes rest : Bytes) (x : ReadError)
      → ((p : Bytes)
          → marshal (local_hello there) ≡ some p
          → unmarshal p ≡ some (local_hello there))
      → send 0 msg_hello (marshal (local_hello here)) ≡ ok sent
      → send 0 msg_hello (marshal (local_hello there)) ≡ ok bytes
      → exchange_hello marshal unmarshal here derived peer_key
          (record { bytes = bytes ++ rest; ends_with = x })
        ≡ accept_hello here derived peer_key sent
            (local_hello there)
            (record { bytes = rest; ends_with = x })
  unfolding exchange_hello read_hello
  heard here there derived peer_key sent bytes rest x codec own w =
      let (payload, m, d) =
        decode_envelope-send 0 msg_hello (marshal (local_hello there)) bytes rest x (omega arith)
          w in
      rw (exchange_hello, own, d, read_hello, codec payload m) refl

  -- A connection between two devices on which this one heard `bytes` of the other.
  pub record Reached (here there : Config) (peer_key sent bytes rest : Bytes) (x : ReadError)
      (opened accepted : Option Reader) : Type 0 where
    pub their_key : derive_device_id sha256 peer_key ≡ there.local_id
    pub not_pinned_otherwise : pins_another here (derive_device_id sha256 peer_key) peer_key ≡ false
    pub sent_here : send 0 msg_hello (marshal (local_hello here)) ≡ ok sent
    pub sent_there : send 0 msg_hello (marshal (local_hello there)) ≡ ok bytes
    pub stream :
        control_stream here opened accepted ≡ some (record { bytes = bytes ++ rest; ends_with = x })

  -- The session comes as far as `Authorize`.
  pub record Meets (here there : Config) (peer_key sent rest : Bytes) (x : ReadError)
      (opened accepted : Option Reader) (s : Established) : Type 0 where
    pub outcome :
        new_session marshal unmarshal sha256 here (ok peer_key) opened accepted ≡ authorised here s
    pub version : s.version ≡ protocol_version
    pub caps :
        s.caps
        ≡ negotiate (registered here.handlers) (local_capabilities (registered there.handlers))
    pub wrote : s.sent ≡ sent
    pub left : s.ctrl ≡ record { bytes = rest; ends_with = x }

  pub Reached-Meets :
      (here there : Config) (peer_key sent bytes rest : Bytes) (x : ReadError)
      (opened accepted : Option Reader)
      → ((p : Bytes)
          → marshal (local_hello there) ≡ some p
          → unmarshal p ≡ some (local_hello there))
      → Reached here there peer_key sent bytes rest x opened accepted
      → (s : Established) × Meets here there peer_key sent rest x opened accepted s
  unfolding new_session accept_hello
  Reached-Meets here there peer_key sent bytes rest x opened accepted codec r =
      let derived = derive_device_id sha256 peer_key in
      let h = heard here there derived peer_key sent bytes rest x codec r.sent_here r.sent_there in
      (
        met here there peer_key sent (record { bytes = rest; ends_with = x }),
        record {
          outcome =
              rw
                (
                  new_session,
                  r.not_pinned_otherwise,
                  r.stream,
                  h,
                  accept_hello,
                  r.their_key,
                  bytes_eq_refl there.local_id,
                )
                refl;
          version = refl;
          caps = refl;
          wrote = refl;
          left = refl;
        },
      )

  -- Two devices that each present the other's TLS key, pin nothing else, and read what the other's
  -- `Send` wrote as its Hello come to a session as far as their `Authorize` lets them, where the
  -- two Hellos are unmarshalled as they were marshalled: with the protocol version of this build on
  -- both sides, and with the same version of the same capabilities, each of which both sides
  -- handle. What follows the Hello is left for the control loop.
  pub handshake :
      (here there : Config) (key_here key_there sent_here sent_there rest_here rest_there : Bytes)
      (x y : ReadError) (opened_here accepted_here opened_there accepted_there : Option Reader)
      → ((p : Bytes)
          → marshal (local_hello there) ≡ some p
          → unmarshal p ≡ some (local_hello there))
      → ((p : Bytes) → marshal (local_hello here) ≡ some p → unmarshal p ≡ some (local_hello here))
      → Reached here there key_there sent_here sent_there rest_here x opened_here accepted_here
      → Reached there here key_here sent_there sent_here rest_there y opened_there accepted_there
      → (s : Established) × (t : Established) × Meets here there key_there sent_here rest_here x
          opened_here accepted_here s
        × Meets there here key_here sent_there rest_there y opened_there accepted_there t
        × ((cap_id : ℕ)
            → (find cap_id s.caps ≡ find cap_id t.caps)
              × (has_key cap_id s.caps ≡ (
                  usable (registered here.handlers) cap_id
                  && usable (registered there.handlers) cap_id
                  && ltb cap_id 8)))
  unfolding has_key
  handshake here there key_here key_there sent_here sent_there rest_here rest_there x y opened_here
        accepted_here opened_there accepted_there codec_there codec_here reached_here
        reached_there =
      let (s, m) =
        Reached-Meets here there key_there sent_here sent_there rest_here x opened_here
          accepted_here codec_there reached_here in
      let (t, n) =
        Reached-Meets there here key_here sent_there sent_here rest_there y opened_there
          accepted_there codec_here reached_there in
      (
        s,
        t,
        m,
        n,
        λ cap_id.
            let (same, this) =
              negotiate_agree (registered here.handlers) (registered there.handlers) cap_id in
            (rw (m.caps, n.caps) same, rw (has_key, m.caps, this) (ground arith)),
      )
