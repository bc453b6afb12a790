-- ===== src/Session/Envelope/Tests.antt =====
-- Runs of the envelope and its theorems at concrete values.
use open_air.Prelude.{◌≡◌, refl, [], ◌∷◌, ◌++◌, Bytes, put_le, get_le, slice, ok, err, arith}
use open_air.Prelude.Io.{eof, read_full}
use open_air.Session.Envelope.{
  Envelope, encode_envelope, decode_envelope, protocol, protocol_violation, message_too_large,
}
use open_air.Session.Envelope.RoundTrip.{
  decode_envelope-encode_envelope, encode_envelope-decode_envelope,
}
use open_air.Session.Envelope.Truncation.{decode_envelope_truncated, cut_after}

abbrev ping : Envelope
ping = record { version = 1; cap_id = 2; msg_type = 0x0304; payload = 7 ∷ 8 ∷ [] }

abbrev ping_bytes : Bytes
ping_bytes = 1 ∷ 2 ∷ 4 ∷ 3 ∷ 2 ∷ 0 ∷ 0 ∷ 0 ∷ 7 ∷ 8 ∷ []

encode_ping : encode_envelope ping ≡ ok ping_bytes
unfolding encode_envelope put_le
encode_ping = refl

decode_ping :
    decode_envelope (record { bytes = ping_bytes ++ (9 ∷ []); ends_with = eof })
    ≡ ok (ping, record { bytes = 9 ∷ []; ends_with = eof })
unfolding decode_envelope read_full get_le slice
decode_ping = refl

-- The version is looked at before the length.
decode_bad_version :
    decode_envelope (record { bytes = 2 ∷ 2 ∷ 4 ∷ 3 ∷ 255 ∷ 255 ∷ 255 ∷ 255 ∷ []; ends_with = eof })
    ≡ err (protocol protocol_violation)
unfolding decode_envelope read_full get_le slice
decode_bad_version = refl

decode_huge :
    decode_envelope (record { bytes = 1 ∷ 2 ∷ 4 ∷ 3 ∷ 1 ∷ 0 ∷ 0 ∷ 1 ∷ []; ends_with = eof })
    ≡ err (protocol message_too_large)
unfolding decode_envelope read_full get_le slice
decode_huge = refl

decode_envelope-encode_envelope_example :
    decode_envelope (record { bytes = ping_bytes ++ (9 ∷ []); ends_with = eof })
    ≡ ok (ping, record { bytes = 9 ∷ []; ends_with = eof })
decode_envelope-encode_envelope_example =
    decode_envelope-encode_envelope ping (9 ∷ []) eof (omega arith) encode_ping

encode_envelope-decode_envelope_example :
    (bs : Bytes) × (encode_envelope ping ≡ ok bs) × (ping_bytes ++ (9 ∷ []) ≡ bs ++ (9 ∷ []))
encode_envelope-decode_envelope_example =
    encode_envelope-decode_envelope (record { bytes = ping_bytes ++ (9 ∷ []); ends_with = eof })
      (record { bytes = 9 ∷ []; ends_with = eof }) ping (omega arith) decode_ping

decode_envelope_truncated_test :
    decode_envelope (cut_after (1 ∷ 2 ∷ 4 ∷ 3 ∷ 2 ∷ 0 ∷ 0 ∷ 0 ∷ 7 ∷ []))
    ≡ err (protocol protocol_violation)
decode_envelope_truncated_test =
    decode_envelope_truncated ping (1 ∷ 2 ∷ 4 ∷ 3 ∷ 2 ∷ 0 ∷ 0 ∷ 0 ∷ 7 ∷ []) 8 [] encode_ping
