-- ===== src/Session/Envelope/Truncation.antt =====
-- A stream that ends early: `DecodeEnvelope` tells a peer that closed the stream from one that was
-- cut off.
use open_air.Prelude.{
  ℕ, ◌≤◌, ◌<◌, ◌≡◌, refl, ap, ◌++◌, [], ◌∷◌, length, length-append, dec_lt, append-split, slice,
  put_le, get_le, Bytes, ok, err, arith,
}
use open_air.Prelude.Io.{Reader, eof, read_full, read_full_short, end_error}
use open_air.Session.Envelope.{
  Envelope, EnvelopeError, envelope_version, envelope_header_size, max_message_size, header,
  encode_envelope, header_error, decode_header, payload_error, with_payload, decode_envelope,
  protocol, protocol_violation, end_of_stream,
}
use open_air.Session.Envelope.RoundTrip.{
  read_header, header_length, decode_envelope_step, encode_envelope-ok,
}

-- What is left of an encoded envelope when the stream ends after `front`.
abbrev pub cut_after : Bytes → Reader
cut_after front = record { bytes = front; ends_with = eof }

short_header :
    (b : ℕ) (bs : Bytes)
    → length (b ∷ bs) < envelope_header_size
    → decode_envelope (cut_after (b ∷ bs)) ≡ err (protocol protocol_violation)
unfolding decode_envelope header_error
short_header b bs h = rw (read_full_short envelope_header_size (b ∷ bs) eof h, decode_envelope)

payload_error_cut : (n : ℕ) → payload_error (end_error n eof) ≡ protocol protocol_violation
unfolding payload_error
payload_error_cut n = ground arith

with_payload_cut :
    (e : Envelope) (mid : Bytes) (n : ℕ)
    → length mid < n
    → with_payload e n (cut_after mid) ≡ err (protocol protocol_violation)
unfolding with_payload
with_payload_cut e mid n h =
    rw (read_full_short n mid eof h, with_payload)
      (ap (λ x. err (x)) (payload_error_cut (length mid)))

decode_header_cut :
    (v c t n : ℕ) (mid : Bytes)
    → v ≡ envelope_version
    → n ≤ max_message_size
    → length mid < n
    → decode_header (header v c t n) (cut_after mid) ≡ err (protocol protocol_violation)
unfolding decode_header
decode_header_cut v c t n mid e small short = ground (
  arith,
  header_length v c t n,
  with_payload_cut
      (record {
        version = v;
        cap_id = c;
        msg_type = get_le (slice 2 4 (header v c t n));
        payload = [];
      })
      mid n short,
)

inside_payload :
    (e : Envelope) (front : Bytes) (b : ℕ) (back : Bytes)
    → encode_envelope e ≡ ok (front ++ (b ∷ back))
    → envelope_header_size ≤ length front
    → decode_envelope (cut_after front) ≡ err (protocol protocol_violation)
unfolding put_le
inside_payload e front b back h long =
    let (v, small, eq) = encode_envelope-ok e h in
    let hdr = header e.version e.cap_id e.msg_type (length e.payload) in
    let (mid, a, c) = append-split front (b ∷ back) hdr e.payload eq long in
    rw
      (decode_envelope_step (cut_after front) hdr (cut_after mid)
        (rw a (read_header e.version e.cap_id e.msg_type (length e.payload) mid eof)))
      (decode_header_cut e.version e.cap_id e.msg_type (length e.payload) mid v small
        (omega (arith, ap length c, length-append mid (b ∷ back))))

-- How `DecodeEnvelope` answers a stream that ended after these bytes of a frame.
abbrev pub truncation_error : Bytes → EnvelopeError
truncation_error [] = end_of_stream
truncation_error (b ∷ bs) = protocol protocol_violation

-- A stream that ends strictly inside an encoded envelope, at whatever byte, is a protocol
-- violation; one that ends before its first byte is the plain end of the stream.
pub decode_envelope_truncated :
    (e : Envelope) (front : Bytes) (b : ℕ) (back : Bytes)
    → encode_envelope e ≡ ok (front ++ (b ∷ back))
    → decode_envelope (cut_after front) ≡ err (truncation_error front)
unfolding decode_envelope header_error read_full
decode_envelope_truncated e [] b back h = refl
decode_envelope_truncated e (x ∷ xs) b back h =
    elim (dec_lt (length (x ∷ xs)) envelope_header_size) [
      | yes p ↦ short_header x xs p
      | no np ↦ inside_payload e (x ∷ xs) b back h (omega arith)
    ]
