-- ===== src/Session/Auth/Sending/Delivery.antt =====
-- What the peer reads of what `SendOwned` wrote.
use mathlib.Core.List.{append_assoc}
use open_air.Prelude.{
  ℕ, ◌^◌, ◌<◌, ◌≡◌, inl, inr, refl, sym, ap, ◌∙◌, Option-cases, ◌++◌, Bytes, Option, none, some,
  Result, Result-cases, ok, err, and_then_ok, guarded_ok, ok_injective, arith,
}
use open_air.Prelude.Io.{Reader, ReadError}
use open_air.Identity.Types.{DeviceId}
use open_air.Identity.Unlock.{UnlockState, FileIdentity, sign_owned}
use open_air.Session.Envelope.{Envelope, EnvelopeError, encode_envelope, decode_envelope}
use open_air.Session.Envelope.RoundTrip.{decode_envelope-encode_envelope}
use open_air.Session.Auth.{AuthProof}
use open_air.Session.Auth.Sending.{
  too_large, msg_auth_proof, message_of, encoded, framed, payload_of, send, frames_of, send_owned,
}

encoded-ok : (r : Result EnvelopeError Bytes) (b : Bytes) → encoded r ≡ ok b → r ≡ ok b
encoded-ok (err x) b h = absurd (grind (arith, h))
encoded-ok (ok c) b h = ap ok (ok_injective h)

pub framed-ok : (e : Envelope) (b : Bytes) → framed e ≡ ok b → encode_envelope e ≡ ok b
unfolding framed
framed-ok e b h = encoded-ok (encode_envelope e) b h

payload_of-ok :
    (msg : Option Bytes) (payload : Bytes) → payload_of msg ≡ ok payload → msg ≡ some payload
unfolding payload_of
payload_of-ok none payload h = absurd (grind (arith, h))
payload_of-ok (some m) payload h = ap some (ok_injective (guarded_ok _ too_large _ h).1)

-- What `Send` wrote, the peer reads as one message with the marshalled payload.
pub decode_envelope-send :
    (cap_id msg_type : ℕ) (msg : Option Bytes) (bytes rest : Bytes) (x : ReadError)
    → msg_type < 2 ^ 16
    → send cap_id msg_type msg ≡ ok bytes
    → (payload : Bytes) × (msg ≡ some payload)
      × (decode_envelope (record { bytes = bytes ++ rest; ends_with = x })
          ≡ ok (message_of cap_id msg_type payload, record { bytes = rest; ends_with = x }))
unfolding send
decode_envelope-send cap_id msg_type msg bytes rest x small h =
    let (payload, given, f) = and_then_ok (payload_of msg) _ h in
    let e = message_of cap_id msg_type payload in
    (
      payload,
      payload_of-ok msg payload given,
      decode_envelope-encode_envelope e rest x small (framed-ok e bytes f),
    )

-- The peer's control stream, with what comes after.
abbrev stream : Bytes → ReadError → Reader
stream bytes x = record { bytes = bytes; ends_with = x }

module _ (marshal : AuthProof → Option Bytes) where
  -- The peer reads the proof of `p`, and right after it the message.
  pub record Delivered (bytes : Bytes) (p : AuthProof) (cap_id msg_type : ℕ) (msg : Option Bytes)
      (rest : Bytes) (x : ReadError) : Type 0 where
    pub proof_payload : Bytes
    pub payload : Bytes
    pub next : Reader
    pub proof : marshal p ≡ some proof_payload
    pub message : msg ≡ some payload
    pub reads_proof :
        decode_envelope (record { bytes = bytes ++ rest; ends_with = x })
        ≡ ok (message_of 0 msg_auth_proof proof_payload, next)
    pub reads_message :
        decode_envelope next
        ≡ ok (message_of cap_id msg_type payload, record { bytes = rest; ends_with = x })

  frames_of-Delivered :
      (p : AuthProof) (cap_id msg_type : ℕ) (msg : Option Bytes) (bytes rest : Bytes)
      (x : ReadError)
      → msg_type < 2 ^ 16
      → frames_of marshal p cap_id msg_type msg ≡ ok bytes
      → Delivered bytes p cap_id msg_type msg rest x
  unfolding frames_of
  frames_of-Delivered p cap_id msg_type msg bytes rest x small h = elim (Option-cases (marshal p)) [
    | inl n ↦ absurd (grind (arith, rw (frames_of, n) at h))
    | inr (pp, m) ↦
        let (payload, given, h₁) = and_then_ok (payload_of msg) _ (rw (frames_of, m) at h) in
        let (first, f₁, h₂) = and_then_ok (framed (message_of 0 msg_auth_proof pp)) _ h₁ in
        let (next, f₂, h₃) = and_then_ok (framed (message_of cap_id msg_type payload)) _ h₂ in
        let e₁ = framed-ok (message_of 0 msg_auth_proof pp) first f₁ in
        let e₂ = framed-ok (message_of cap_id msg_type payload) next f₂ in
        let whole : bytes ++ rest ≡ first ++ (next ++ rest) =
          ap (λ b. b ++ rest) (sym (ok_injective h₃)) ∙ append_assoc first next rest in
        record {
          proof_payload = pp;
          payload = payload;
          next = stream (next ++ rest) x;
          proof = m;
          message = payload_of-ok msg payload given;
          reads_proof =
              ap (λ b. decode_envelope (stream b x)) whole
              ∙ decode_envelope-encode_envelope (message_of 0 msg_auth_proof pp) (next ++ rest) x
                  (omega arith) e₁;
          reads_message =
              decode_envelope-encode_envelope (message_of cap_id msg_type payload) rest x small e₂;
        }
  ]

  -- What `SendOwned` wrote, for a message type of two bytes, the peer reads as two messages: first
  -- the proof that this device signed for this very message, and right after it the message.
  pub send_owned-Delivered :
      (sign : Bytes → Bytes → Bytes) (i : FileIdentity) (peer : DeviceId) (cap_id msg_type : ℕ)
      (msg : Option Bytes) (nonce : Bytes) (now : ℕ) (st : UnlockState) (bytes rest : Bytes)
      (x : ReadError)
      → msg_type < 2 ^ 16
      → (send_owned marshal sign i peer cap_id msg_type msg nonce now st).1 ≡ ok bytes
      → (p : AuthProof) × ((sign_owned sign i peer cap_id msg_type nonce now st).1
          ≡ ok (p.issued_at, p.signature))
        × (p.nonce ≡ nonce)
        × Delivered bytes p cap_id msg_type msg rest x
  unfolding send_owned
  send_owned-Delivered sign i peer cap_id msg_type msg nonce now st bytes rest x small h =
      elim (Result-cases (sign_owned sign i peer cap_id msg_type nonce now st).1) [
        | inr (e, w) ↦ absurd (grind (arith, rw (send_owned, w) at h))
        | inl ((issued_at, signature), w) ↦
            let p : AuthProof = record {
              nonce = nonce;
              issued_at = issued_at;
              signature = signature;
            } in
            (
              p,
              w,
              refl,
              frames_of-Delivered p cap_id msg_type msg bytes rest x small
                  (rw (send_owned, w) at h),
            )
      ]
