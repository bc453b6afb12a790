-- ===== src/Paths/Stun/Parse.antt =====
-- How a packet is parsed.
use mathlib.Core.List.{append_assoc, append-nil}
use Prim.Native.Nat.{bit_and}
use open_air.Prelude.{
  ℕ, suc, ◌+◌, ◌/◌, ◌%◌, ◌^◌, ◌≤◌, ◌<◌, ◌≡◌, ◌⊎◌, inl, inr, refl, sym, ap, ◌∙◌, true, false,
  Bool-cases, List, [], ◌++◌, ltb, length, length-append, slice, slice_at, Bytes, Option, none,
  Result, ok, err, All, ltb→lt, arith,
}
use open_air.Paths.Stun.{
  AddrPort, not_stun, truncated, StunError, StunMessage, stun_cookie, put_be16, put_be32, be16,
  be32, is_stun, stun_message, attribute_loop, parse_stun,
}
use open_air.Paths.Stun.Addresses.{last_xor, first_plain, prefer, apply_all-prefer}
use open_air.Paths.Stun.Attributes.{
  be16-put_be16, attribute_loop-ok, encode_attributes, apply_all, Sendable,
  attribute_loop-encode_attributes,
}

-- The number of bytes of attributes that a message claims.
abbrev claimed : Bytes → ℕ
claimed b = be16 (slice 2 4 b)

-- Whatever a packet holds, the parse ends, in one of three ways: what is not a STUN message is
-- refused, one that claims more attributes than the packet holds is cut short, and any other gives
-- the type and the transaction id of its header.
pub parse_stun_total :
    (b : Bytes)
    → ((is_stun b ≡ false) × (parse_stun b ≡ err not_stun))
      ⊎ ((is_stun b ≡ true) × (length b < 20 + claimed b) × (parse_stun b ≡ err truncated))
      ⊎ ((m : StunMessage) × (is_stun b ≡ true)
          × (20 + claimed b ≤ length b)
          × (parse_stun b ≡ ok m)
          × (m.typ ≡ be16 (slice 0 2 b))
          × (m.id ≡ slice 8 20 b))
unfolding parse_stun
parse_stun_total b =
    let attrs = slice 20 (20 + claimed b) b in
    elim (Bool-cases (is_stun b)) [
      | inr other ↦ inl (other, rw (parse_stun, other) refl)
      | inl stun ↦ elim (Bool-cases (ltb (length b) (20 + claimed b))) [
        | inl short ↦ inr (
            inl (stun, ltb→lt (length b) (20 + claimed b) short, rw (parse_stun, stun, short) refl))
        | inr whole ↦
            let (mapped, ends) =
              attribute_loop-ok (suc (length attrs)) (slice 8 20 b) attrs none (omega arith) in
            inr (
              inr (
                record { typ = be16 (slice 0 2 b); id = slice 8 20 b; mapped = mapped },
                stun,
                ground (arith, whole),
                rw (parse_stun, stun, whole, ends) refl,
                refl,
                refl,
              ))
      ]
    ]

pub length-put_be16 : (v : ℕ) → length (put_be16 v) ≡ 2
unfolding put_be16
length-put_be16 v = refl

-- A message that a sender put together.
module _ (typ : ℕ) (id attrs : Bytes) where
  pub message_is_stun :
      length id ≡ 12
      → bit_and (typ / 256 % 256) 0xC0 ≡ 0
      → is_stun (stun_message typ id attrs) ≡ true
  unfolding is_stun stun_message put_be16 put_be32 be32 slice
  message_is_stun l h = ground (arith, h, length-append id attrs)

  abbrev front : Bytes
  front = put_be16 typ ++ (put_be16 (length attrs % 2 ^ 16) ++ put_be32 stun_cookie)

  message_eq : stun_message typ id attrs ≡ front ++ (id ++ attrs)
  unfolding stun_message put_be16 put_be32
  message_eq = refl

  length-front : length front ≡ 8
  unfolding put_be16 put_be32
  length-front = refl

  message_type : typ < 2 ^ 16 → be16 (slice 0 2 (stun_message typ id attrs)) ≡ typ
  unfolding stun_message
  message_type small =
      ap be16 (
        slice_at 0 2 [] (put_be16 typ)
          (put_be16 (length attrs % 2 ^ 16) ++ (put_be32 stun_cookie ++ (id ++ attrs))) refl
          (omega (arith, length-put_be16 typ)))
      ∙ be16-put_be16 typ small

  message_claims : length attrs < 2 ^ 16 → claimed (stun_message typ id attrs) ≡ length attrs
  unfolding stun_message
  message_claims short =
      ap be16 (
        slice_at 2 4 (put_be16 typ) (put_be16 (length attrs % 2 ^ 16))
          (put_be32 stun_cookie ++ (id ++ attrs)) (length-put_be16 typ)
          (omega (arith, length-put_be16 (length attrs % 2 ^ 16))))
      ∙ be16-put_be16 (length attrs % 2 ^ 16) (omega arith)
      ∙ omega (arith, short)

  message_id : length id ≡ 12 → slice 8 20 (stun_message typ id attrs) ≡ id
  message_id l =
      ap (slice 8 20) message_eq ∙ slice_at 8 20 front id attrs length-front (omega (arith, l))

  message_attrs : length id ≡ 12 → slice 20 (20 + length attrs) (stun_message typ id attrs) ≡ attrs
  message_attrs l =
      ap (slice 20 (20 + length attrs)) (
        message_eq
        ∙ sym (append_assoc front id attrs)
        ∙ ap (◌++◌ (front ++ id)) (sym (append-nil attrs)))
      ∙ slice_at 20 (20 + length attrs) (front ++ id) attrs []
          (omega (arith, l, length-append front id, length-front)) refl

  length-message : length id ≡ 12 → length (stun_message typ id attrs) ≡ 20 + length attrs
  length-message l =
      ap length message_eq
      ∙ omega (arith, l, length-front, length-append front (id ++ attrs), length-append id attrs)

  -- How a message is parsed, up to its attributes.
  parse_message :
      (mapped : Option AddrPort)
      → length id ≡ 12
      → typ < 2 ^ 16
      → bit_and (typ / 256 % 256) 0xC0 ≡ 0
      → length attrs < 2 ^ 16
      → attribute_loop (suc (length attrs)) id attrs none ≡ ok mapped
      → parse_stun (stun_message typ id attrs) ≡ ok (record { typ = typ; id = id; mapped = mapped })
  unfolding parse_stun
  parse_message mapped l small top short loop =
      let whole : ltb (length (stun_message typ id attrs)) (20 + length attrs) ≡ false =
        ground (arith, length-message l) in
      rw
        (
          parse_stun,
          message_is_stun l top,
          message_claims short,
          whole,
          message_attrs l,
          message_id l,
          loop,
          message_id l,
          message_type small,
        )
        refl

-- A message is read as its attributes say one by one.
pub parse_stun-apply_all :
    (typ : ℕ) (id : Bytes) (us : List (ℕ × Bytes))
    → length id ≡ 12
    → typ < 2 ^ 16
    → bit_and (typ / 256 % 256) 0xC0 ≡ 0
    → All Sendable us
    → length (encode_attributes us) < 2 ^ 16
    → parse_stun (stun_message typ id (encode_attributes us))
      ≡ ok (record { typ = typ; id = id; mapped = apply_all id us none })
parse_stun-apply_all typ id us l small top fit short =
    parse_message typ id (encode_attributes us) (apply_all id us none) l small top short (
      attribute_loop-encode_attributes (suc (length (encode_attributes us))) id us none fit
        (omega arith))

-- A message with a transaction id of 12 bytes and a type of two bytes whose two highest bits are zero,
-- and with any attributes, of which each has a type and a length of two bytes and which together are
-- less than 2 ^ 16 bytes, is read as it was sent: its type, its id, and the address of the last of its
-- XOR-MAPPED-ADDRESS attributes that can be decoded, or if there is none, of the first of its
-- MAPPED-ADDRESS attributes that can be, or no address; wherever these stand among the others, each
-- padded to a multiple of four bytes.
pub parse_stun-stun_message :
    (typ : ℕ) (id : Bytes) (us : List (ℕ × Bytes))
    → length id ≡ 12
    → typ < 2 ^ 16
    → bit_and (typ / 256 % 256) 0xC0 ≡ 0
    → All Sendable us
    → length (encode_attributes us) < 2 ^ 16
    → parse_stun (stun_message typ id (encode_attributes us))
      ≡ ok (record { typ = typ; id = id; mapped = prefer (last_xor id us) (first_plain id us) })
parse_stun-stun_message typ id us l small top fit short =
    let read : Option AddrPort → Result StunError StunMessage =
      λ m. ok (record { typ = typ; id = id; mapped = m }) in
    parse_stun-apply_all typ id us l small top fit short ∙ ap read (apply_all-prefer id us none)
