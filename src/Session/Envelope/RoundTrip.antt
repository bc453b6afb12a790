-- ===== src/Session/Envelope/RoundTrip.antt =====
-- What is encoded is decoded, and nothing else is.
use open_air.Prelude.{
  ℕ, ◌^◌, ◌≤◌, ◌<◌, ◌≡◌, sym, ◌∙◌, ap, inl, inr, ◌++◌, [], ◌∷◌, length, slice, Bytes, put_le,
  get_le, put_le-get_le, ok, arith, All, All-split, subst, IsByte, get_or,
}
use open_air.Prelude.Io.{
  Reader, ReadError, full, read_full, read_full-append, Read-cases, read_full-ok,
}
use open_air.Session.Envelope.{
  Envelope, envelope_version, envelope_header_size, max_message_size, header, encode_envelope,
  decode_header, with_payload, decode_envelope,
}
use mathlib.Core.List.{append_assoc}

pub read_header :
    (v c t n : ℕ) (rest : Bytes) (x : ReadError)
    → read_full envelope_header_size (record { bytes = header v c t n ++ rest; ends_with = x })
      ≡ full (header v c t n) (record { bytes = rest; ends_with = x })
unfolding put_le
read_header v c t n rest x = read_full-append (header v c t n) rest x

pub header_type : (v c t n : ℕ) → t < 2 ^ 16 → get_le (slice 2 4 (header v c t n)) ≡ t
unfolding put_le get_le slice
header_type v c t n h = omega arith

pub header_length : (v c t n : ℕ) → n < 2 ^ 32 → get_le (slice 4 8 (header v c t n)) ≡ n
unfolding put_le get_le slice
header_length v c t n h = omega arith

with_payload_enough :
    (e : Envelope) (p rest : Bytes) (x : ReadError)
    → with_payload e (length p) (record { bytes = p ++ rest; ends_with = x })
      ≡ ok (record e { payload = p }, record { bytes = rest; ends_with = x })
unfolding with_payload
with_payload_enough e p rest x = rw (read_full-append p rest x, with_payload)

decode_header-header :
    (v c t : ℕ) (p rest : Bytes) (x : ReadError)
    → t < 2 ^ 16
    → v ≡ envelope_version
    → length p ≤ max_message_size
    → decode_header (header v c t (length p)) (record { bytes = p ++ rest; ends_with = x })
      ≡ ok (
        record { version = v; cap_id = c; msg_type = t; payload = p },
        record { bytes = rest; ends_with = x },
      )
unfolding decode_header
decode_header-header v c t [] rest x f e small =
    ground (arith, header_type v c t 0, header_length v c t 0)
decode_header-header v c t (b ∷ bs) rest x f e small = ground (
  arith,
  header_type v c t (length (b ∷ bs)),
  header_length v c t (length (b ∷ bs)),
  with_payload_enough (record { version = v; cap_id = c; msg_type = t; payload = [] }) (b ∷ bs) rest
      x,
)

pub decode_envelope_step :
    (r : Reader) (hdr : Bytes) (r' : Reader)
    → read_full envelope_header_size r ≡ full hdr r'
    → decode_envelope r ≡ decode_header hdr r'
unfolding decode_envelope
decode_envelope_step r hdr r' h = rw (h, decode_envelope)

-- An envelope is encoded exactly if its version is the one of this build and its payload is within
-- the cap.
pub encode_envelope-ok :
    (e : Envelope) {bs : Bytes}
    → encode_envelope e ≡ ok bs
    → (e.version ≡ envelope_version)
      × (length e.payload ≤ max_message_size)
      × (bs ≡ header e.version e.cap_id e.msg_type (length e.payload) ++ e.payload)
unfolding encode_envelope
encode_envelope-ok e h = ground arith

-- Decoding what `EncodeEnvelope` wrote gives the envelope back, and leaves what follows it; the
-- message type has to fit its two bytes.
pub decode_envelope-encode_envelope :
    (e : Envelope) (rest : Bytes) (x : ReadError) {bs : Bytes}
    → e.msg_type < 2 ^ 16
    → encode_envelope e ≡ ok bs
    → decode_envelope (record { bytes = bs ++ rest; ends_with = x })
      ≡ ok (e, record { bytes = rest; ends_with = x })
decode_envelope-encode_envelope e rest x f h =
    let open_parts = encode_envelope-ok e h in
    let (v, small, eq) = open_parts in
    let hdr = header e.version e.cap_id e.msg_type (length e.payload) in
    rw (eq, append_assoc hdr e.payload rest)
      (decode_envelope_step _ _ _
          (read_header e.version e.cap_id e.msg_type (length e.payload) (e.payload ++ rest) x)
        ∙ decode_header-header e.version e.cap_id e.msg_type e.payload rest x f v small)

header_eta :
    (hdr : Bytes)
    → length hdr ≡ envelope_header_size
    → All IsByte hdr
    → header (get_or hdr 0 0) (get_or hdr 1 0) (get_le (slice 2 4 hdr)) (get_le (slice 4 8 hdr))
      ≡ hdr
unfolding slice
header_eta (a ∷ b ∷ c ∷ d ∷ e ∷ f ∷ g ∷ h ∷ []) l (_, (_, (hc, (hd, (he, (hf, (hg, (hh, _)))))))) =
    rw (
      put_le-get_le (c ∷ d ∷ []) (hc, (hd, tt)),
      put_le-get_le (e ∷ f ∷ g ∷ h ∷ []) (he, (hf, (hg, (hh, tt)))),
    )
header_eta hdr l h = absurd (omega arith)

with_payload-ok :
    (e : Envelope) (n : ℕ) (r : Reader) {e' : Envelope} {r' : Reader}
    → with_payload e n r ≡ ok (e', r')
    → (e' ≡ record e { payload = e'.payload }) × (read_full n r ≡ full e'.payload r')
unfolding with_payload
with_payload-ok e n r h = ground arith

decode_header-ok :
    (hdr : Bytes) (r : Reader) {e : Envelope} {r' : Reader}
    → decode_header hdr r ≡ ok (e, r')
    → (e.version ≡ envelope_version)
      × (e.version ≡ get_or hdr 0 0)
      × (e.cap_id ≡ get_or hdr 1 0)
      × (e.msg_type ≡ get_le (slice 2 4 hdr))
      × (length e.payload ≡ get_le (slice 4 8 hdr))
      × (length e.payload ≤ max_message_size)
      × (r.bytes ≡ e.payload ++ r'.bytes)
unfolding decode_header with_payload
decode_header-ok hdr r {e} {r'} h =
    ground (arith, read_full-ok (get_le (slice 4 8 hdr)) r {bs = e.payload} {r' = r'})

pub encode_envelope_within :
    (e : Envelope)
    → e.version ≡ envelope_version
    → length e.payload ≤ max_message_size
    → encode_envelope e ≡ ok (header e.version e.cap_id e.msg_type (length e.payload) ++ e.payload)
unfolding encode_envelope
encode_envelope_within e v small = ground arith

-- What `DecodeEnvelope` accepts is exactly what `EncodeEnvelope` writes: the bytes it takes off the
-- reader are the encoding of the envelope that it returns, so no two byte strings decode alike.
pub encode_envelope-decode_envelope :
    (r r' : Reader) (e : Envelope)
    → All IsByte r.bytes
    → decode_envelope r ≡ ok (e, r')
    → (bs : Bytes) × (encode_envelope e ≡ ok bs) × (r.bytes ≡ bs ++ r'.bytes)
unfolding decode_envelope
encode_envelope-decode_envelope r r' e h d = elim (Read-cases (read_full envelope_header_size r)) [
  | inr (n, x, eq) ↦ absurd (cc (rw (eq, decode_envelope) at d))
  | inl (hdr, r1, eq) ↦
      let (v1, v0, c, t, n, small, b) = decode_header-ok hdr r1 (rw (eq, decode_envelope) at d) in
      let (_, l, a, _) = read_full-ok envelope_header_size r eq in
      let bytes = All-split IsByte hdr r1.bytes (subst (All IsByte) a h) in
      let hd : header e.version e.cap_id e.msg_type (length e.payload) ≡ hdr =
        cc (header_eta hdr l bytes.0) in
      (
        hdr ++ e.payload,
        rw (encode_envelope_within e v1 small) (ap (λ x. ok (x ++ e.payload)) hd),
        a ∙ ap (◌++◌ hdr) b ∙ sym (append_assoc hdr e.payload r'.bytes),
      )
]
