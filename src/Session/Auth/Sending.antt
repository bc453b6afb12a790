-- ===== src/Session/Auth/Sending.antt =====
-- internal/session/auth.go: the initiating half, `SendOwned` and `OpenOwnedStream`, and `Send` of
-- session.go, which a locked device falls back to. The bytes are what is written to the control
-- stream, or to the new stream; a failure to write is left out, as is a failure to open a stream, and
-- a session that cannot sign. Marshalling is a parameter, and the message comes
-- marshalled, if that succeeds.
pub mod Delivery
use open_air.Prelude.{
  ℕ, Bool, true, false, List, [], ◌++◌, ltb, if◌then◌else◌, length, Bytes, Option, none, some,
  Result, ok, err, and_then,
}
use open_air.Prelude.Int.{ℤ}
use open_air.Identity.Types.{DeviceId}
use open_air.Identity.Unlock.{
  UnlockError, key_locked, no_key, UnlockState, FileIdentity, sign_owned,
}
use open_air.Session.Envelope.{
  Envelope, EnvelopeError, envelope_version, max_message_size, encode_envelope,
}
use open_air.Session.Auth.{AuthProof}

-- `MsgAuthProof`
abbrev pub msg_auth_proof : ℕ
msg_auth_proof = 6

pub data SendError : Type 0 where
  not_signed : UnlockError → SendError
  not_marshalled too_large : SendError
  not_encoded : EnvelopeError → SendError

abbrev pub message_of : ℕ → ℕ → Bytes → Envelope
message_of cap_id msg_type payload = record {
  version = envelope_version;
  cap_id = cap_id;
  msg_type = msg_type;
  payload = payload;
}

abbrev pub encoded : Result EnvelopeError Bytes → Result SendError Bytes
encoded (err x) = err (not_encoded x)
encoded (ok b) = ok b

-- The frame of a message that was marshalled.
unfoldable pub framed : Envelope → Result SendError Bytes
framed e = encoded (encode_envelope e)

-- The payload of a message, if it can be sent.
unfoldable pub payload_of : Option Bytes → Result SendError Bytes
payload_of none = err not_marshalled
payload_of (some payload) =
    if ltb max_message_size (length payload) then err too_large else ok payload

unfoldable pub send : ℕ → ℕ → Option Bytes → Result SendError Bytes
send cap_id msg_type msg =
    and_then (payload_of msg) (λ payload. framed (message_of cap_id msg_type payload))

module _ (marshal : AuthProof → Option Bytes) where
  -- The two frames, the proof's first.
  unfoldable pub frames_of : AuthProof → ℕ → ℕ → Option Bytes → Result SendError Bytes
  frames_of p cap_id msg_type msg = elim (marshal p) [
    | none ↦ err not_marshalled
    | some proof_payload ↦ and_then (payload_of msg) (λ payload.
        and_then (framed (message_of 0 msg_auth_proof proof_payload)) (λ first.
          and_then (framed (message_of cap_id msg_type payload)) (λ next. ok (first ++ next))))
  ]

  module _ (sign : Bytes → Bytes → Bytes) (i : FileIdentity) (peer : DeviceId) where
    unfoldable pub send_owned :
        ℕ → ℕ → Option Bytes → Bytes → ℕ → UnlockState → UnlockState × Result SendError Bytes
    send_owned cap_id msg_type msg nonce now st =
        let (st', proof) = sign_owned sign i peer cap_id msg_type nonce now st in
        elim proof [
          | err e ↦ (st', err (not_signed e))
          | ok (issued_at, signature) ↦ (
            st',
            frames_of (record { nonce = nonce; issued_at = issued_at; signature = signature })
                cap_id msg_type msg,
          )
        ]

    -- Whether a failure is that of a key that is locked or not there.
    abbrev pub without_key : SendError → Bool
    without_key (not_signed key_locked) = true
    without_key (not_signed no_key) = true
    without_key e = false

    -- `SendOwnedIfUnlocked`: whether the message went out with a proof, and what was written.
    unfoldable pub send_owned_if_unlocked :
        ℕ
        → ℕ
        → Option Bytes
        → Bytes
        → ℕ
        → UnlockState
        → UnlockState × Result SendError (Bool × Bytes)
    send_owned_if_unlocked cap_id msg_type msg nonce now st =
        let (st', sent) = send_owned cap_id msg_type msg nonce now st in
        elim sent [
          | ok bytes ↦ (st', ok (true, bytes))
          | err e ↦ (
            st',
            if without_key e
                then and_then (send cap_id msg_type msg) (λ bytes. ok (false, bytes))
                else err e,
          )
        ]

    -- What `OpenOwnedStream` writes on the stream that it opened.
    unfoldable pub open_owned_stream :
        ℕ → ℕ → Bytes → ℕ → UnlockState → UnlockState × Result SendError Bytes
    open_owned_stream cap_id msg_type nonce now st =
        let (st', proof) = sign_owned sign i peer cap_id msg_type nonce now st in
        elim proof [
          | err e ↦ (st', err (not_signed e))
          | ok (issued_at, signature) ↦ (
            st',
            elim (marshal
                (record { nonce = nonce; issued_at = issued_at; signature = signature })) [
                  | none ↦ err not_marshalled
                  | some payload ↦ framed (message_of 0 msg_auth_proof payload)
                ],
          )
        ]

    -- `OpenOwnedStreamIfUnlocked`: a locked device opens the stream and writes nothing.
    unfoldable pub open_owned_stream_if_unlocked :
        ℕ → ℕ → Bytes → ℕ → UnlockState → UnlockState × Result SendError (Bool × Bytes)
    open_owned_stream_if_unlocked cap_id msg_type nonce now st =
        let (st', opened) = open_owned_stream cap_id msg_type nonce now st in
        elim opened [
          | ok bytes ↦ (st', ok (true, bytes))
          | err e ↦ (st', if without_key e then ok (false, []) else err e)
        ]
