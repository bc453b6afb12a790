-- ===== src/Infra/Frame/Laws.antt =====
-- What the framing of internal/infra/frame.go guarantees.
use open_air.Prelude.{
  ℕ, ◌^◌, ◌≤◌, ◌<◌, ◌≡◌, ◌∙◌, ap, inl, inr, ◌≢◌, Option-cases, Option, some, ◌++◌, length,
  length-append, slice, Bytes, put_le, get_le, length-put_le, ok, err, Result-cases, arith,
}
use open_air.Prelude.Io.{
  Reader, ReadError, full, read_full, read_full-append, Read-cases, read_full-ok,
}
use open_air.Infra.Frame.{
  header_size, max_message_size, msg_error, over_cap, server_error, frame, write_message,
  read_payload, read_message, accept, read_into,
}
use mathlib.Core.List.{append_assoc}

header : ℕ → Bytes → Bytes
header t p = put_le 2 t ++ put_le 4 (length p)

length-header : (t : ℕ) (p : Bytes) → length (header t p) ≡ header_size
unfolding header
length-header t p = omega (
  arith,
  length-append (put_le 2 t) (put_le 4 (length p)),
  length-put_le 2 t,
  length-put_le 4 (length p),
)

frame-eq :
    (t : ℕ) (p bs : Bytes)
    → frame t p ≡ ok bs
    → (bs ≡ header t p ++ p) × (length p ≤ max_message_size)
unfolding frame header
frame-eq t p bs h = ground (arith, append_assoc (put_le 2 t) (put_le 4 (length p)) p)

header_type : (t : ℕ) (p : Bytes) → t < 2 ^ 16 → get_le (slice 0 2 (header t p)) ≡ t
unfolding header put_le get_le slice
header_type t p h = omega arith

header_size_field :
    (t : ℕ) (p : Bytes) → length p < 2 ^ 32 → get_le (slice 2 6 (header t p)) ≡ length p
unfolding header put_le get_le slice
header_size_field t p h = omega arith

read_header :
    (t : ℕ) (p rest : Bytes) (e : ReadError)
    → read_full header_size (record { bytes = header t p ++ rest; ends_with = e })
      ≡ full (header t p) (record { bytes = rest; ends_with = e })
read_header t p rest e = rw (length-header t p) at (read_full-append (header t p) rest e)

read_payload_enough :
    (t : ℕ) (p rest : Bytes) (e : ReadError)
    → length p ≤ max_message_size
    → read_payload t (length p) (record { bytes = p ++ rest; ends_with = e })
      ≡ ok (t, p, record { bytes = rest; ends_with = e })
unfolding read_payload
read_payload_enough t p rest e small = ground (arith, read_full-append p rest e)

read_message_step :
    (r : Reader) (hdr : Bytes) (r' : Reader)
    → read_full header_size r ≡ full hdr r'
    → read_message r ≡ read_payload (get_le (slice 0 2 hdr)) (get_le (slice 2 6 hdr)) r'
unfolding read_message
read_message_step r hdr r' h = rw (h, read_message)

read_message-frame :
    (t : ℕ) (p rest : Bytes) (e : ReadError) {bs : Bytes}
    → t < 2 ^ 16
    → frame t p ≡ ok bs
    → read_message (record { bytes = bs ++ rest; ends_with = e })
      ≡ ok (t, p, record { bytes = rest; ends_with = e })
read_message-frame t p rest e ht h =
    let (eq, small) = frame-eq t p _ h in
    rw (eq, append_assoc (header t p) p rest)
      (cc (
        read_message_step _ _ _ (read_header t p (p ++ rest) e),
        header_type t p ht,
        header_size_field t p (omega arith),
        read_payload_enough t p rest e small,
      ))

-- Whatever `WriteMessage` puts on the wire, `ReadMessage` takes off it: the type and the encoded
-- message come back, and the bytes behind the frame are left unread.
pub read_message-write_message {ℓ} :
    {M : Type ℓ} (marshal : M → Option Bytes) (t : ℕ) (m : M) (rest : Bytes) (e : ReadError)
    {bs : Bytes}
    → t < 2 ^ 16
    → write_message marshal t m ≡ ok bs
    → (p : Bytes) × (marshal m ≡ some p)
      × (read_message (record { bytes = bs ++ rest; ends_with = e })
          ≡ ok (t, p, record { bytes = rest; ends_with = e }))
unfolding write_message
read_message-write_message marshal t m rest e ht h = elim (Option-cases (marshal m)) [
  | inl eq ↦ absurd (cc (rw (eq, write_message) at h))
  | inr (p, eq) ↦ (p, eq, read_message-frame t p rest e ht (rw (eq, write_message) at h))
]

read_payload-ok :
    (t n : ℕ) (r : Reader) {k : ℕ} {p : Bytes} {r' : Reader}
    → read_payload t n r ≡ ok (k, p, r')
    → (k ≡ t) × (n ≤ max_message_size) × (read_full n r ≡ full p r')
unfolding read_payload
read_payload-ok t n r h = ground arith

-- What one successful `ReadMessage` has done to the reader.
pub record IsFrameRead (r r' : Reader) (t : ℕ) (p : Bytes) : Type 0 where
  pub hdr : Bytes
  pub taken : r.bytes ≡ hdr ++ (p ++ r'.bytes)
  pub header_whole : length hdr ≡ header_size
  pub type_field : t ≡ get_le (slice 0 2 hdr)
  pub length_field : length p ≡ get_le (slice 2 6 hdr)
  pub capped : length p ≤ max_message_size
  pub same_end : r'.ends_with ≡ r.ends_with

-- `ReadMessage` hands out no payload over the cap; it takes a six-byte header and the payload that
-- the header announces off the reader, in that order, and nothing more.
pub read_message-IsFrameRead :
    (r r' : Reader) (t : ℕ) (p : Bytes) → read_message r ≡ ok (t, p, r') → IsFrameRead r r' t p
unfolding read_message
read_message-IsFrameRead r r' t p h = elim (Read-cases (read_full header_size r)) [
  | inr (n, e, eq) ↦ absurd (cc (rw (eq, read_message) at h))
  | inl (hdr, r1, eq) ↦
      let (e1, l1, a1, s1) = read_full-ok header_size r eq in
      let (k, small, got) = read_payload-ok _ _ r1 (rw (eq, read_message) at h) in
      let (e2, l2, a2, s2) = read_full-ok _ r1 got in
      record {
        hdr = hdr;
        taken = rw a1 (ap (◌++◌ hdr) a2);
        header_whole = l1;
        type_field = k;
        length_field = l2;
        capped = omega arith;
        same_end = s2 ∙ s1;
      }
]

-- A header that announces more than the cap is refused, whatever follows it, and nothing behind
-- the header is read.
pub read_message_over_cap :
    (t n : ℕ) (rest : Bytes) (e : ReadError)
    → n < 2 ^ 32
    → max_message_size < n
    → read_message (record { bytes = put_le 2 t ++ (put_le 4 n ++ rest); ends_with = e })
      ≡ err (over_cap n)
unfolding read_message read_full read_payload put_le get_le slice
read_message_over_cap t n rest e h over = ground arith

module _ {ℓ} {M : Type ℓ} (error_text : Bytes → Option Bytes) (unmarshal : Bytes → Option M) where
  accept-ok :
      (want t : ℕ) (p : Bytes) {m : M}
      → accept error_text unmarshal want t p ≡ ok m
      → (t ≡ want) × (unmarshal p ≡ some m)
  unfolding accept
  accept-ok want t p h = ground arith

  -- `ReadInto` succeeds only on a frame of the type that was asked for, with a payload that
  -- decodes; so an error reply never passes for an answer, unless an error was asked for.
  pub read_into-ok :
      (want : ℕ) (r : Reader) {m : M} {r' : Reader}
      → read_into error_text unmarshal want r ≡ ok (m, r')
      → (p : Bytes) × (read_message r ≡ ok (want, p, r')) × (unmarshal p ≡ some m)
  unfolding read_into
  read_into-ok want r h = elim (Result-cases (read_message r)) [
    | inr (e, eq) ↦ absurd (cc (rw (eq, read_into) at h))
    | inl ((t, p, r1), eq) ↦ ground (arith, accept-ok want t p)
  ]

  -- An error reply to any other question comes back as the server's refusal, with its text.
  pub read_into_refused :
      (want : ℕ) (r r' : Reader) (p text : Bytes)
      → want ≢ msg_error
      → read_message r ≡ ok (msg_error, p, r')
      → error_text p ≡ some text
      → read_into error_text unmarshal want r ≡ err (server_error text)
  unfolding read_into accept
  read_into_refused want r r' p text ne h t = ground arith
