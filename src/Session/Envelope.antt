-- ===== src/Session/Envelope.antt =====
-- internal/session/envelope.go: `EncodeEnvelope` and `DecodeEnvelope`, with the error codes of
-- PROTOCOL.md §10. A `ProtocolError` is its code; the text of its message is left out.
pub mod RoundTrip
pub mod Truncation
mod Tests
use open_air.Prelude.{
  ℕ, zero, suc, ◌*◌, ◌^◌, Bool, true, false, [], ◌∷◌, ◌++◌, not, ltb, ◌==◌, if◌then◌else◌, length,
  get_or, slice, Bytes, put_le, get_le, Result, ok, err,
}
use open_air.Prelude.Io.{Reader, ReadError, eof, unexpected_eof, other, Read, full, cut, read_full}

abbrev pub envelope_version : ℕ
envelope_version = 1

abbrev pub envelope_header_size : ℕ
envelope_header_size = 8

abbrev pub max_message_size : ℕ
max_message_size = 16 * 2 ^ 20

pub record Envelope : Type 0 where
  pub version : ℕ
  pub cap_id : ℕ
  pub msg_type : ℕ
  pub payload : Bytes

-- `ErrorCode`, in the order of its values 0x00 to 0x0c.
pub data ErrorCode : Type 0 where
  no_error protocol_violation unknown_version message_too_large not_paired key_mismatch : ErrorCode
  unauthorised auth_expired rejected capability_unavailable resource_exhausted : ErrorCode
  integrity_failure not_found : ErrorCode

-- What `DecodeEnvelope` fails with: a violation, the bare `io.EOF` of a peer that closed the
-- stream, or a failure of the transport that is passed on.
pub data EnvelopeError : Type 0 where
  protocol : ErrorCode → EnvelopeError
  end_of_stream : EnvelopeError
  transport : ReadError → EnvelopeError

-- `ErrorCodeOf`: the code to close with, and whether the peer is to blame at all.
unfoldable pub error_code_of : EnvelopeError → ErrorCode × Bool
error_code_of (protocol c) = (c, true)
error_code_of end_of_stream = (no_error, false)
error_code_of (transport e) = (no_error, false)

abbrev pub header : ℕ → ℕ → ℕ → ℕ → Bytes
header version cap_id msg_type n = version ∷ cap_id ∷ (put_le 2 msg_type ++ put_le 4 n)

unfoldable pub encode_envelope : Envelope → Result EnvelopeError Bytes
encode_envelope e =
    if not (e.version == envelope_version)
    then err (protocol protocol_violation)
    else if ltb max_message_size (length e.payload)
    then err (protocol message_too_large)
    else ok (header e.version e.cap_id e.msg_type (length e.payload) ++ e.payload)

-- The switch on the error of the header's `io.ReadFull`.
unfoldable pub header_error : ℕ → ReadError → EnvelopeError
header_error zero eof = end_of_stream
header_error (suc n) eof = protocol protocol_violation
header_error n unexpected_eof = protocol protocol_violation
header_error n (other c) = transport (other c)

unfoldable pub payload_error : ReadError → EnvelopeError
payload_error eof = protocol protocol_violation
payload_error unexpected_eof = protocol protocol_violation
payload_error (other c) = transport (other c)

unfoldable pub with_payload : Envelope → ℕ → Reader → Result EnvelopeError (Envelope × Reader)
unfolding payload_error
with_payload e n r = elim (read_full n r) [
  | full payload r' ↦ ok (record e { payload = payload }, r')
  | cut k x ↦ err (payload_error x)
]

-- What follows the eight bytes of the header. The version is looked at first.
unfoldable pub decode_header : Bytes → Reader → Result EnvelopeError (Envelope × Reader)
unfolding with_payload
decode_header hdr r =
    let n = get_le (slice 4 8 hdr) in
    let e : Envelope = record {
      version = get_or hdr 0 0;
      cap_id = get_or hdr 1 0;
      msg_type = get_le (slice 2 4 hdr);
      payload = [];
    } in
    if not (e.version == envelope_version)
    then err (protocol protocol_violation)
    else if ltb max_message_size n
    then err (protocol message_too_large)
    else if n == 0
    then ok (e, r)
    else with_payload e n r

unfoldable pub decode_envelope : Reader → Result EnvelopeError (Envelope × Reader)
unfolding header_error decode_header
decode_envelope r = elim (read_full envelope_header_size r) [
  | cut n x ↦ err (header_error n x)
  | full hdr r' ↦ decode_header hdr r'
]
