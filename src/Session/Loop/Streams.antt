-- ===== src/Session/Loop/Streams.antt =====
-- Streams that a peer opens, and the proof that comes first on one.
mod Tests
use mathlib.Core.List.{append_assoc}
use open_air.Prelude.{
  ℕ, ◌+◌, ◌^◌, ◌<◌, ◌≤◌, ◌≡◌, ◌⊎◌, inl, inr, refl, sym, ap, subst, ◌∙◌, Bool, true, false,
  Bool-cases, not, ◌&&◌, ◌||◌, List, [], ◌∷◌, ◌++◌, ◌==◌, if◌then◌else◌, length, Bytes, Option,
  none, some, Option-cases, Result, Result-cases, ok, err, arith,
}
use open_air.Prelude.Int.{ℤ, pos, leb_ℤ}
use open_air.Prelude.Io.{Reader, ReadError}
use open_air.Prelude.Maps.{lookup}
use open_air.Prelude.NumMaps.{has_key}
use open_air.Identity.Types.{level_trusted, TrustLevel, DeviceId, Peer}
use open_air.Identity.Unlock.{UnlockState, LockedKey, FileIdentity, expire_locked, sign_owned}
use open_air.Identity.Unlock.Expiry.{sign_owned-live}
use open_air.Session.Envelope.{
  Envelope, ErrorCode, no_error, EnvelopeError, decode_envelope, encode_envelope,
}
use open_air.Session.Envelope.RoundTrip.{decode_envelope-encode_envelope}
use open_air.Session.Auth.{
  AuthProof, AuthVerifier, AuthEvent, PeerView, proof_window, required_level, refreshed, receive,
  prune, spend, take_proof, consume, decide, is_no_error, authorize_inbound,
}
use open_air.Session.Auth.Gate.{too_low}
use open_air.Session.Auth.Served.{consume-sign_owned}
use open_air.Session.Auth.Sending.{msg_auth_proof, message_of, framed, open_owned_stream}
use open_air.Session.Auth.Sending.Delivery.{framed-ok}
use open_air.Session.Loop.{
  Inbound, Sess, declared_level, view_of, admit_operation, operation_on, after_proof, with_proof,
  admit_stream,
}

-- Nothing speaks against the level of the peer.
abbrev pub High : PeerView → Option TrustLevel → Type 0
High r declared =
    (leb_ℤ (required_level declared) level_trusted ≡ true) ⊎ (too_low r declared ≡ false)

decide_proven :
    (r : PeerView) (declared : Option TrustLevel) (cap_id msg_type : ℕ)
    → High r declared
    → ((decide r declared cap_id msg_type true no_error).0 ≡ true)
      × ((decide r declared cap_id msg_type true no_error).1 ≡ true)
unfolding decide
decide_proven r declared cap_id msg_type (inl common) = (rw common refl, rw common refl)
decide_proven r declared cap_id msg_type (inr high) =
    elim (Bool-cases (leb_ℤ (required_level declared) level_trusted)) [
      | inl common ↦ (rw common refl, rw common refl)
      | inr above ↦ (rw (above, high) refl, rw (above, high) refl)
    ]

spend_code :
    (a : AuthVerifier) (now : ℤ) (p : AuthProof)
    → (spend a now p).1 ≡ true
    → (spend a now p).2 ≡ no_error
unfolding spend
spend_code a now p h = elim (Option-cases (lookup p.nonce a.seen)) [
  | inl e ↦ ground (arith, e)
  | inr (t, e) ↦ ground (arith, e)
]

module _ (verify : Bytes → Bytes → Bytes → Bool) where
  consume_code :
      (a : AuthVerifier) (now : ℤ) (key : Bytes) (cap_id msg_type : ℕ)
      → (consume verify a now key cap_id msg_type).1 ≡ true
      → (consume verify a now key cap_id msg_type).2 ≡ no_error
  unfolding consume
  consume_code a now key cap_id msg_type h =
      elim (Option-cases (take_proof verify key a.local_id cap_id msg_type a.pending)) [
        | inl e ↦ absurd (grind (arith, rw (consume, e) at h))
        | inr ((p, rest), e) ↦
            let spent = record a { seen = prune now a.seen; pending = rest } in
            rw (consume, e) (ground (arith, rw (consume, e) at h, spend_code spent now p))
      ]

  -- An operation whose proof counts.
  operation_proven :
      (unmarshal : Bytes → Option AuthProof) (look : Option (DeviceId → Option Peer)) (now : ℤ)
      (s : Sess) (a : AuthVerifier) (env : Envelope) (st : Reader)
      → (env.cap_id == 0) ≡ false
      → has_key env.cap_id s.caps ≡ true
      → has_key env.cap_id s.handlers ≡ true
      → High (refreshed (view_of s look)) (declared_level s.handlers env.cap_id)
      → (consume verify a now
          (refreshed (view_of s look)).peer.privilege_public_key
          env.cap_id
          env.msg_type).1
        ≡ true
      → (operation_on verify unmarshal look now s a env st).2
        ≡ ok (record { env = env; owned = true }, st)
  unfolding operation_on admit_operation authorize_inbound
  operation_proven unmarshal look now s a env st other negotiated handled high counts =
      let r = refreshed (view_of s look) in
      let key = r.peer.privilege_public_key in
      let code = consume_code a now key env.cap_id env.msg_type counts in
      let (owned, allowed) =
        decide_proven r (declared_level s.handlers env.cap_id) env.cap_id env.msg_type high in
      rw
        (
          operation_on, admit_operation, other, negotiated, handled, authorize_inbound, counts,
          code, owned, allowed,
        )
        refl

-- What `OpenOwnedStream` wrote: a proof that this device signed for the operation.
record Opened (marshal : AuthProof → Option Bytes) (sign : Bytes → Bytes → Bytes) (i : FileIdentity)
    (peer : DeviceId) (cap_id msg_type now : ℕ) (nonce : Bytes) (st : UnlockState) (bytes : Bytes)
    : Type 0 where
  issued_at : ℤ
  signature : Bytes
  payload : Bytes
  made : (sign_owned sign i peer cap_id msg_type nonce now st).1 ≡ ok (issued_at, signature)
  proof :
      marshal (record { nonce = nonce; issued_at = issued_at; signature = signature })
      ≡ some payload
  first : encode_envelope (message_of 0 msg_auth_proof payload) ≡ ok bytes

open_owned_stream-Opened :
    (marshal : AuthProof → Option Bytes) (sign : Bytes → Bytes → Bytes) (i : FileIdentity)
    (peer : DeviceId) (cap_id msg_type now : ℕ) (nonce : Bytes) (st : UnlockState) (bytes : Bytes)
    → (open_owned_stream marshal sign i peer cap_id msg_type nonce now st).1 ≡ ok bytes
    → Opened marshal sign i peer cap_id msg_type now nonce st bytes
unfolding open_owned_stream
open_owned_stream-Opened marshal sign i peer cap_id msg_type now nonce st bytes h =
    elim (Result-cases (sign_owned sign i peer cap_id msg_type nonce now st).1) [
      | inr (e, w) ↦ absurd (grind (arith, rw (open_owned_stream, w) at h))
      | inl ((issued_at, signature), w) ↦
          let p : AuthProof = record {
            nonce = nonce;
            issued_at = issued_at;
            signature = signature;
          } in
          elim (Option-cases (marshal p)) [
            | inl m ↦ absurd (grind (arith, rw (open_owned_stream, w, m) at h))
            | inr (payload, m) ↦ record {
              issued_at = issued_at;
              signature = signature;
              payload = payload;
              made = w;
              proof = m;
              first =
                  framed-ok (message_of 0 msg_auth_proof payload) bytes
                    (rw (open_owned_stream, w, m) at h);
            }
          ]
    ]

module _ (verify : Bytes → Bytes → Bytes → Bool) (unmarshal : Bytes → Option AuthProof)
    (look : Option (DeviceId → Option Peer)) (now : ℤ) (s : Sess) where
  -- A stream whose first frame is a proof that is taken goes on with the operation after it.
  admit_stream_proof :
      (p : AuthProof) (payload bytes rest : Bytes) (x : ReadError) (env : Envelope) (next : Reader)
      → encode_envelope (message_of 0 msg_auth_proof payload) ≡ ok bytes
      → unmarshal payload ≡ some p
      → (receive s.auth (some p)).1 ≡ no_error
      → decode_envelope (record { bytes = rest; ends_with = x }) ≡ ok (env, next)
      → (env.cap_id == 0) ≡ false
      → admit_stream verify unmarshal look now s (record { bytes = bytes ++ rest; ends_with = x })
        ≡ operation_on verify unmarshal look now s (receive s.auth (some p)).0 env next
  unfolding admit_stream with_proof after_proof
  admit_stream_proof p payload bytes rest x env next first decoded taken second other =
      let d =
        decode_envelope-encode_envelope (message_of 0 msg_auth_proof payload) rest x (omega arith)
          first in
      let accepted : (receive s.auth (unmarshal payload)).1 ≡ no_error =
        ap (λ q. (receive s.auth q).1) decoded ∙ taken in
      rw (admit_stream, d, with_proof, accepted, after_proof, second, other) refl
      ∙ ap (λ q. operation_on verify unmarshal look now s (receive s.auth q).0 env next) decoded

module _ (verify : Bytes → Bytes → Bytes → Bool) (unmarshal : Bytes → Option AuthProof)
    (marshal : AuthProof → Option Bytes) (sign : Bytes → Bytes → Bytes)
    (look : Option (DeviceId → Option Peer)) (s : Sess) where
  -- What the session knows of its peer now.
  abbrev known : PeerView
  known = refreshed (view_of s look)

  -- The operation that an unlocked device opens a stream for reaches the handler, marked as Owned.
  -- The session negotiated the capability, which is not the session's own, and has a handler for it;
  -- nothing speaks against the level of the peer; the peer's privilege key has 32 bytes, and
  -- verifies what the device's key signs; a signature has 64 bytes; a proof is unmarshalled as it was
  -- marshalled; the verifier holds no other proof and has not seen the nonce; the clocks are less
  -- than a minute apart; and the operation's message follows the proof on the stream.
  pub admit_stream-open_owned_stream :
      (i : FileIdentity) (st : UnlockState) (k : LockedKey) (cap_id msg_type now now' : ℕ)
      (nonce bytes operation payload rest : Bytes) (x : ReadError)
      → ((p : AuthProof) (b : Bytes) → marshal p ≡ some b → unmarshal b ≡ some p)
      → ((input : Bytes) → verify known.peer.privilege_public_key input (sign k.key input) ≡ true)
      → ((key input : Bytes) → length (sign key input) ≡ 64)
      → (expire_locked now st).key ≡ some k
      → (open_owned_stream marshal sign i s.auth.local_id cap_id msg_type nonce now st).1 ≡ ok bytes
      → encode_envelope (message_of cap_id msg_type payload) ≡ ok operation
      → msg_type < 2 ^ 16
      → length known.peer.privilege_public_key ≡ 32
      → s.auth.pending ≡ []
      → lookup nonce (prune (pos now') s.auth.seen) ≡ none
      → now' + 10 ^ 6 ≤ now + proof_window
      → now ≤ now' + proof_window
      → (cap_id == 0) ≡ false
      → has_key cap_id s.caps ≡ true
      → has_key cap_id s.handlers ≡ true
      → High known (declared_level s.handlers cap_id)
      → (admit_stream verify unmarshal look
          (pos now')
          s
          (record { bytes = bytes ++ (operation ++ rest); ends_with = x })).2
        ≡ ok (
          record { env = message_of cap_id msg_type payload; owned = true },
          record { bytes = rest; ends_with = x },
        )
  admit_stream-open_owned_stream i st k cap_id msg_type now now' nonce bytes operation payload rest
        x codec scheme size held opens encodes small pinned none_held unused early late other
        negotiated handled high =
      let o =
        open_owned_stream-Opened marshal sign i s.auth.local_id cap_id msg_type now nonce st bytes
          opens in
      let (g, k', input, found, live, held', at_time, built, is_signed) =
        sign_owned-live i s.auth.local_id sign cap_id msg_type now nonce st o.issued_at o.signature
          o.made in
      let p : AuthProof = record {
        nonce = nonce;
        issued_at = o.issued_at;
        signature = o.signature;
      } in
      let env = message_of cap_id msg_type payload in
      let (taken, counts) =
        consume-sign_owned sign verify i st k s.auth known.peer.privilege_public_key cap_id msg_type
          now now' nonce o.issued_at o.signature scheme held o.made
          (ap length is_signed ∙ size k'.key input) pinned none_held unused early late in
      ap (λ r. r.2)
        (admit_stream_proof verify unmarshal look (pos now') s p o.payload bytes (operation ++ rest)
          x env (record { bytes = rest; ends_with = x }) o.first (codec p o.payload o.proof) taken
          (decode_envelope-encode_envelope env rest x small encodes) other)
      ∙ operation_proven verify unmarshal look (pos now') s (receive s.auth (some p)).0 env
          (record { bytes = rest; ends_with = x }) other negotiated handled high counts
