-- ===== src/Paths/Stun.antt =====
-- internal/path/stun.go: the STUN codec and the server's answer to a packet. An address of
-- `net/netip` is its bytes, and its zero value is none; a transaction id has 12 bytes. An address of
-- a network other than UDP, which is parsed from its text, is left out, as are the sockets.
pub mod Attributes
pub mod Addresses
pub mod Parse
pub mod Answer
pub mod Server
mod Tests
use Prim.Native.Nat.{bit_and, bit_xor}
use open_air.Prelude.{
  ℕ, zero, suc, ◌+◌, ◌-◌, ◌*◌, ◌/◌, ◌%◌, ◌^◌, Bool, true, false, not, ◌&&◌, [], ◌∷◌, ◌++◌, leb, ltb,
  ◌==◌, if◌then◌else◌, length, get_or, take, drop, slice, replicate, Bytes, bytes_eq, Option, none,
  some, Result, ok, err,
}

abbrev pub stun_header_size : ℕ
stun_header_size = 20

abbrev pub stun_cookie : ℕ
stun_cookie = 0x2112A442

abbrev pub stun_binding_request : ℕ
stun_binding_request = 0x0001

abbrev pub stun_binding_response : ℕ
stun_binding_response = 0x0101

abbrev pub attr_mapped_address : ℕ
attr_mapped_address = 0x0001

abbrev pub attr_xor_mapped_address : ℕ
attr_xor_mapped_address = 0x0020

abbrev pub family_ipv4 : ℕ
family_ipv4 = 1

abbrev pub family_ipv6 : ℕ
family_ipv6 = 2

-- `binary.BigEndian`
unfoldable pub put_be16 : ℕ → Bytes
put_be16 v = v / 256 % 256 ∷ v % 256 ∷ []

unfoldable pub put_be32 : ℕ → Bytes
put_be32 v = v / 256 ^ 3 % 256 ∷ v / 256 ^ 2 % 256 ∷ v / 256 % 256 ∷ v % 256 ∷ []

unfoldable pub be16 : Bytes → ℕ
be16 b = get_or b 0 0 * 256 + get_or b 1 0

unfoldable pub be32 : Bytes → ℕ
be32 b = get_or b 0 0 * 256 ^ 3 + get_or b 1 0 * 256 ^ 2 + get_or b 2 0 * 256 + get_or b 3 0

-- `netip.Addr` with 4 or with 16 bytes, and `netip.AddrPort`.
pub data Addr : Type 0 where
  ipv4 ipv6 : Bytes → Addr

pub record AddrPort : Type 0 where
  pub addr : Addr
  pub port : ℕ

unfoldable pub is_stun : Bytes → Bool
is_stun b =
    leb stun_header_size (length b)
    && (bit_and (get_or b 0 0) 0xC0 == 0)
    && (be32 (slice 4 8 b) == stun_cookie)

unfoldable pub stun_message : ℕ → Bytes → Bytes → Bytes
stun_message typ id attrs =
    put_be16 typ ++ (put_be16 (length attrs % 2 ^ 16) ++ (put_be32 stun_cookie ++ (id ++ attrs)))

unfoldable pub binding_request : Bytes → Bytes
binding_request id = stun_message stun_binding_request id []

-- `a[i] ^ mask[i]`
unfoldable pub xor_bytes : Bytes → Bytes → Bytes
xor_bytes [] ys = []
xor_bytes (x ∷ xs) [] = x ∷ xs
xor_bytes (x ∷ xs) (y ∷ ys) = bit_xor x y ∷ xor_bytes xs ys

unfoldable pub address_mask : Bytes → Bytes
address_mask id = put_be32 stun_cookie ++ id

abbrev pub port_mask : ℕ
port_mask = stun_cookie / 2 ^ 16

-- The value of the attribute.
unfoldable pub xor_address_value : Bytes → AddrPort → Bytes
xor_address_value id ap =
    let port = put_be16 (bit_xor ap.port port_mask) in
    elim ap.addr [
      | ipv4 a ↦ 0 ∷ family_ipv4 ∷ (port ++ put_be32 (bit_xor (be32 a) stun_cookie))
      | ipv6 a ↦ 0 ∷ family_ipv6 ∷ (port ++ xor_bytes a (address_mask id))
    ]

unfoldable pub xor_mapped_address : Bytes → AddrPort → Bytes
xor_mapped_address id ap =
    let value = xor_address_value id ap in
    put_be16 attr_xor_mapped_address ++ (put_be16 (length value % 2 ^ 16) ++ value)

unfoldable pub binding_response : Bytes → AddrPort → Bytes
binding_response id from = stun_message stun_binding_response id (xor_mapped_address id from)

unfoldable pub decode_address : Bytes → Bytes → Bool → Option AddrPort
decode_address id v xor =
    let sent = be16 (slice 2 4 v) in
    let port = if xor then bit_xor sent port_mask else sent in
    let raw = be32 (slice 4 8 v) in
    let a = slice 4 20 v in
    if ltb (length v) 4
    then none
    else if get_or v 1 0 == family_ipv4
    then if ltb (length v) 8
      then none
      else some (record {
        addr = ipv4 (put_be32 (if xor then bit_xor raw stun_cookie else raw));
        port = port;
      })
    else if get_or v 1 0 == family_ipv6
    then if ltb (length v) 20
      then none
      else some
          (record { addr = ipv6 (if xor then xor_bytes a (address_mask id) else a); port = port })
    else none

-- The switch on the type of an attribute.
unfoldable pub apply_attribute : Bytes → ℕ → Bytes → Option AddrPort → Option AddrPort
apply_attribute id attr_type value mapped =
    if attr_type == attr_xor_mapped_address
    then elim (decode_address id value true) [ none ↦ mapped | some ap ↦ some ap ]
    else if attr_type == attr_mapped_address
    then elim (decode_address id value false) [
      | none ↦ mapped
      | some ap ↦ elim mapped [ none ↦ some ap | some m ↦ some m ]
    ]
    else mapped

unfoldable pub padding : ℕ → ℕ
padding n = if n % 4 == 0 then 0 else 4 - n % 4

-- One turn of the loop, and the attributes to go on with, if the loop goes on.
unfoldable pub attribute_turn : Bytes → Bytes → Option AddrPort → Option AddrPort × Option Bytes
attribute_turn id attrs mapped =
    let attr_len = be16 (slice 2 4 attrs) in
    let mapped' =
      apply_attribute id (be16 (slice 0 2 attrs)) (slice 4 (4 + attr_len) attrs) mapped in
    let advance = 4 + attr_len + padding attr_len in
    if ltb (length attrs) 4
    then (mapped, none)
    else if ltb (length attrs) (4 + attr_len)
    then (mapped, none)
    else (mapped', if ltb (length attrs) advance then none else some (drop advance attrs))

pub data StunError : Type 0 where
  not_stun truncated out_of_fuel : StunError

-- The loop, with fuel.
unfoldable pub attribute_loop :
    ℕ → Bytes → Bytes → Option AddrPort → Result StunError (Option AddrPort)
attribute_loop zero id attrs mapped = err out_of_fuel
attribute_loop (suc n) id attrs mapped =
    let (mapped', next) = attribute_turn id attrs mapped in
    elim next [ none ↦ ok mapped' | some rest ↦ attribute_loop n id rest mapped' ]

pub record StunMessage : Type 0 where
  pub typ : ℕ
  pub id : Bytes
  pub mapped : Option AddrPort

unfoldable pub parse_stun : Bytes → Result StunError StunMessage
parse_stun b =
    let n = be16 (slice 2 4 b) in
    let attrs = slice stun_header_size (stun_header_size + n) b in
    if not (is_stun b)
    then err not_stun
    else if ltb (length b) (stun_header_size + n)
    then err truncated
    else elim (attribute_loop (suc (length attrs)) (slice 8 20 b) attrs none) [
      | err e ↦ err e
      | ok mapped ↦ ok (record { typ = be16 (slice 0 2 b); id = slice 8 20 b; mapped = mapped })
    ]

-- `addrPortOf`, on the IP and the port of a `net.UDPAddr`: `AddrFromSlice` and `Unmap`.
unfoldable pub unmap : Addr → Addr
unmap (ipv4 a) = ipv4 a
unmap (ipv6 a) =
    if bytes_eq (take 12 a) (replicate 10 0 ++ (255 ∷ 255 ∷ [])) then ipv4 (drop 12 a) else ipv6 a

unfoldable pub addr_port_of : Bytes → ℕ → Option AddrPort
addr_port_of ip port =
    if length ip == 4
    then some (record { addr = ipv4 ip; port = port % 2 ^ 16 })
    else if length ip == 16
    then some (record { addr = unmap (ipv6 ip); port = port % 2 ^ 16 })
    else none

-- One turn of `ServeSTUN`: what is written back to where the packet came from.
unfoldable pub serve_stun : Bytes → Bytes → ℕ → Option Bytes
serve_stun packet ip port = if not (is_stun packet) then none else elim (parse_stun packet) [
  | err e ↦ none
  | ok m ↦
      if not (m.typ == stun_binding_request)
      then none
      else elim (addr_port_of ip port) [ none ↦ none | some ap ↦ some (binding_response m.id ap) ]
]
