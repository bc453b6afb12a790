-- ===== src/Paths/Stun/Answer.antt =====
-- What a client reads of a server's answer.
use mathlib.Core.List.{append-nil}
use Prim.Native.Nat.{bit_xor}
use open_air.Prelude.{
  ℕ, suc, ◌+◌, ◌*◌, ◌/◌, ◌%◌, ◌^◌, ◌<◌, ◌≡◌, ◌⊎◌, inl, inr, refl, sym, ap, subst, ◌∙◌, true, [],
  ◌∷◌, ◌++◌, length, length-append, get_or, slice, slice_at, Bytes, IsByte, some, ok, All, arith,
}
use open_air.Prelude.Bits.{bit_xor_twice, bit_xor_bound}
use open_air.Paths.Stun.{
  Addr, ipv4, ipv6, AddrPort, stun_cookie, stun_binding_response, attr_xor_mapped_address, put_be16,
  put_be32, be16, be32, stun_message, binding_response, xor_bytes, address_mask, port_mask,
  xor_address_value, xor_mapped_address, decode_address, apply_attribute, parse_stun,
}
use open_air.Paths.Stun.Attributes.{be16-put_be16, encode_attributes, pad_of, apply_all, Sendable}
use open_air.Paths.Stun.Parse.{length-put_be16, parse_stun-apply_all}

-- The address of a socket: 4 bytes, or 16.
unfoldable pub IsAddr : Addr → Type 0
IsAddr (ipv4 a) = (length a ≡ 4) × All IsByte a
IsAddr (ipv6 a) = length a ≡ 16

length-put_be32 : (v : ℕ) → length (put_be32 v) ≡ 4
unfolding put_be32
length-put_be32 v = refl

put_be32-be32 : (a : Bytes) → length a ≡ 4 → All IsByte a → put_be32 (be32 a) ≡ a
unfolding put_be32 be32
put_be32-be32 (a ∷ b ∷ c ∷ d ∷ []) l (ha, (hb, (hc, (hd, _)))) =
    let e₀ : (a * 256 ^ 3 + b * 256 ^ 2 + c * 256 + d) / 256 ^ 3 % 256 ≡ a = omega arith in
    let e₁ : (a * 256 ^ 3 + b * 256 ^ 2 + c * 256 + d) / 256 ^ 2 % 256 ≡ b = omega arith in
    let e₂ : (a * 256 ^ 3 + b * 256 ^ 2 + c * 256 + d) / 256 % 256 ≡ c = omega arith in
    let e₃ : (a * 256 ^ 3 + b * 256 ^ 2 + c * 256 + d) % 256 ≡ d = omega arith in cc
put_be32-be32 a l h = absurd (omega arith)

be32-put_be32 : (v : ℕ) → v < 2 ^ 32 → be32 (put_be32 v) ≡ v
unfolding put_be32 be32
be32-put_be32 v h = omega arith

be32_bound : (a : Bytes) → length a ≡ 4 → All IsByte a → be32 a < 2 ^ 32
unfolding be32
be32_bound (a ∷ b ∷ c ∷ d ∷ []) l (ha, (hb, (hc, (hd, _)))) = omega arith
be32_bound a l h = absurd (omega arith)

xor_bytes_twice : (xs ys : Bytes) → xor_bytes (xor_bytes xs ys) ys ≡ xs
unfolding xor_bytes
xor_bytes_twice [] ys = refl
xor_bytes_twice (x ∷ xs) [] = refl
xor_bytes_twice (x ∷ xs) (y ∷ ys) = rw (bit_xor_twice x y, xor_bytes_twice xs ys) refl

length-xor_bytes : (xs ys : Bytes) → length (xor_bytes xs ys) ≡ length xs
unfolding xor_bytes
length-xor_bytes [] ys = refl
length-xor_bytes (x ∷ xs) [] = refl
length-xor_bytes (x ∷ xs) (y ∷ ys) = ap suc (length-xor_bytes xs ys)

module _ (id v : Bytes) (port : ℕ) where
  decode_four :
      (raw : ℕ)
      → length v ≡ 8
      → get_or v 1 0 ≡ 1
      → be16 (slice 2 4 v) ≡ port
      → be32 (slice 4 8 v) ≡ raw
      → decode_address id v true
        ≡ some (record {
          addr = ipv4 (put_be32 (bit_xor raw stun_cookie));
          port = bit_xor port port_mask;
        })
  unfolding decode_address
  decode_four raw l family at_port at_raw = rw (decode_address, l, family, at_port, at_raw) refl

  decode_sixteen :
      (a : Bytes)
      → length v ≡ 20
      → get_or v 1 0 ≡ 2
      → be16 (slice 2 4 v) ≡ port
      → slice 4 20 v ≡ a
      → decode_address id v true
        ≡ some
            (record { addr = ipv6 (xor_bytes a (address_mask id)); port = bit_xor port port_mask })
  unfolding decode_address
  decode_sixteen a l family at_port at_address =
      rw (decode_address, l, family, at_port, at_address) refl

abbrev masked : ℕ → ℕ
masked port = bit_xor port port_mask

masked_bound : (port : ℕ) → port < 2 ^ 16 → masked port < 2 ^ 16
masked_bound port small = bit_xor_bound 16 port port_mask small (omega arith)

-- The port stands behind the family.
port_read :
    (family port : ℕ) (rest : Bytes)
    → port < 2 ^ 16
    → be16 (slice 2 4 (0 ∷ family ∷ (put_be16 (masked port) ++ rest))) ≡ masked port
port_read family port rest small =
    ap be16 (
      slice_at 2 4 (0 ∷ family ∷ []) (put_be16 (masked port)) rest refl
        (omega (arith, length-put_be16 (masked port))))
    ∙ be16-put_be16 (masked port) (masked_bound port small)

-- The address stands behind the port, at the end.
address_read :
    (family port n : ℕ) (a : Bytes)
    → 4 + length a ≡ n
    → slice 4 n (0 ∷ family ∷ (put_be16 (masked port) ++ a)) ≡ a
unfolding put_be16
address_read family port n a l =
    ap (λ x. slice 4 n (0 ∷ family ∷ (put_be16 (masked port) ++ x))) (sym (append-nil a))
    ∙ slice_at 4 n (0 ∷ family ∷ put_be16 (masked port)) a [] refl l

-- The value is read back.
decode_address-xor_address_value :
    (id : Bytes) (a : Addr) (port : ℕ)
    → length id ≡ 12
    → port < 2 ^ 16
    → IsAddr a
    → decode_address id (xor_address_value id (record { addr = a; port = port })) true
      ≡ some (record { addr = a; port = port })
unfolding xor_address_value IsAddr
decode_address-xor_address_value id (ipv4 a) port l small (four, bytes) =
    let raw = bit_xor (be32 a) stun_cookie in
    let back : put_be32 (bit_xor raw stun_cookie) ≡ a =
      rw (bit_xor_twice (be32 a) stun_cookie) (put_be32-be32 a four bytes) in
    let bound = bit_xor_bound 32 (be32 a) stun_cookie (be32_bound a four bytes) (omega arith) in
    decode_four id (0 ∷ 1 ∷ (put_be16 (masked port) ++ put_be32 raw)) (masked port) raw
      (omega (
        arith,
        length-append (put_be16 (masked port)) (put_be32 raw),
        length-put_be16 (masked port),
        length-put_be32 raw,
      ))
      refl (port_read 1 port (put_be32 raw) small)
      (ap be32 (address_read 1 port 8 (put_be32 raw) (omega (arith, length-put_be32 raw)))
        ∙ be32-put_be32 raw bound)
    ∙ rw (back, bit_xor_twice port port_mask) refl
decode_address-xor_address_value id (ipv6 a) port l small sixteen =
    let sent = xor_bytes a (address_mask id) in
    let len = length-xor_bytes a (address_mask id) in
    decode_sixteen id (0 ∷ 2 ∷ (put_be16 (masked port) ++ sent)) (masked port) sent
      (omega (
        arith,
        len,
        sixteen,
        length-append (put_be16 (masked port)) sent,
        length-put_be16 (masked port),
      ))
      refl (port_read 2 port sent small) (address_read 2 port 20 sent (omega (arith, len, sixteen)))
    ∙ rw (xor_bytes_twice a (address_mask id), bit_xor_twice port port_mask) refl

-- The value has 8 bytes or 20.
length-xor_address_value :
    (id : Bytes) (a : Addr) (port : ℕ)
    → IsAddr a
    → (length (xor_address_value id (record { addr = a; port = port })) ≡ 8)
      ⊎ (length (xor_address_value id (record { addr = a; port = port })) ≡ 20)
unfolding xor_address_value IsAddr
length-xor_address_value id (ipv4 a) port valid =
    let raw = bit_xor (be32 a) stun_cookie in
    inl (
      omega (
        arith,
        length-append (put_be16 (masked port)) (put_be32 raw),
        length-put_be16 (masked port),
        length-put_be32 raw,
      ))
length-xor_address_value id (ipv6 a) port sixteen =
    let sent = xor_bytes a (address_mask id) in
    inr (
      omega (
        arith,
        sixteen,
        length-xor_bytes a (address_mask id),
        length-append (put_be16 (masked port)) sent,
        length-put_be16 (masked port),
      ))

-- An attribute without padding, of fewer than 2 ^ 16 bytes.
unpadded :
    (v : Bytes)
    → (length v ≡ 8) ⊎ (length v ≡ 20)
    → put_be16 attr_xor_mapped_address ++ (put_be16 (length v % 2 ^ 16) ++ v)
      ≡ encode_attributes ((attr_xor_mapped_address, v) ∷ [])
unfolding encode_attributes pad_of
unpadded v (inl e) = rw e (ap (λ x. put_be16 32 ++ (put_be16 8 ++ x)) (sym (append-nil v)))
unpadded v (inr e) = rw e (ap (λ x. put_be16 32 ++ (put_be16 20 ++ x)) (sym (append-nil v)))

-- An address and a port that a binding response carries are what the client reads from it, with its
-- transaction id. The address has 4 bytes or 16, the id 12, and the port is below 2 ^ 16.
pub parse_stun-binding_response :
    (id : Bytes) (a : Addr) (port : ℕ)
    → length id ≡ 12
    → port < 2 ^ 16
    → IsAddr a
    → parse_stun (binding_response id (record { addr = a; port = port }))
      ≡ ok (record {
        typ = stun_binding_response;
        id = id;
        mapped = some (record { addr = a; port = port });
      })
unfolding binding_response xor_mapped_address apply_all apply_attribute Sendable
parse_stun-binding_response id a port l small valid =
    let p : AddrPort = record { addr = a; port = port } in
    let v = xor_address_value id p in
    let size = length-xor_address_value id a port valid in
    let sent = unpadded v size in
    let fits : length v < 2 ^ 16 = ground (arith, size) in
    let read = decode_address-xor_address_value id a port l small valid in
    let n = put_be16 (length v % 2 ^ 16) in
    let short : length (encode_attributes ((attr_xor_mapped_address, v) ∷ [])) < 2 ^ 16 =
      subst (λ l. length l < 2 ^ 16) sent
        (ground (
          arith,
          size,
          length-append (put_be16 attr_xor_mapped_address) (n ++ v),
          length-append n v,
          length-put_be16 attr_xor_mapped_address,
          length-put_be16 (length v % 2 ^ 16),
        )) in
    ap (λ attrs. parse_stun (stun_message stun_binding_response id attrs)) sent
    ∙ parse_stun-apply_all stun_binding_response id ((attr_xor_mapped_address, v) ∷ []) l
        (omega arith) refl ((omega arith, fits), tt) short
    ∙ rw read refl
