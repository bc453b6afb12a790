-- ===== src/Paths/Stun/Tests.antt =====
-- A client with the id 7, 7, …, seen as 10.0.0.1:5000.
use open_air.Prelude.{
  ℕ, ◌+◌, ◌<◌, ◌≡◌, ◌⊎◌, refl, true, false, bytes_eq, ◌≤◌, List, [], ◌∷◌, ◌++◌, replicate, length,
  slice, Bytes, IsByte, All, some, ok, err, arith,
}
use open_air.Paths.Stun.{
  ipv4, AddrPort, StunMessage, not_stun, truncated, put_be16, put_be32, be16, be32, is_stun,
  stun_message, binding_request, binding_response, xor_address_value, xor_mapped_address,
  decode_address, parse_stun, unmap, addr_port_of, serve_stun,
}
use open_air.Paths.Stun.Attributes.{pad_of, encode_attributes, Sendable}
use open_air.Paths.Stun.Addresses.{last_xor, first_plain}
use open_air.Paths.Stun.Parse.{parse_stun_total, parse_stun-stun_message}
use open_air.Paths.Stun.Answer.{IsAddr, parse_stun-binding_response}
use open_air.Paths.Stun.Server.{serve_stun-binding_request}

abbrev client_id : Bytes
client_id = replicate 12 7

abbrev seen_ip : Bytes
seen_ip = 10 ∷ 0 ∷ 0 ∷ 1 ∷ []

abbrev seen : AddrPort
seen = record { addr = ipv4 seen_ip; port = 5000 }

-- The bytes of RFC 8489: the port and the address under the cookie.
attribute_bytes :
    xor_mapped_address client_id seen ≡ 0 ∷ 32 ∷ 0 ∷ 8 ∷ 0 ∷ 1 ∷ 50 ∷ 154 ∷ 43 ∷ 18 ∷ 164 ∷ 67 ∷ []
unfolding xor_mapped_address xor_address_value put_be16 put_be32 be32
attribute_bytes = refl

seen_bytes : All IsByte seen_ip
seen_bytes = (omega arith, (omega arith, (omega arith, (omega arith, tt))))

seen-IsAddr : IsAddr (ipv4 seen_ip)
unfolding IsAddr
seen-IsAddr = (refl, seen_bytes)

parse_stun-binding_response_example :
    parse_stun (binding_response client_id seen)
    ≡ ok (record { typ = 257; id = client_id; mapped = some seen })
parse_stun-binding_response_example =
    parse_stun-binding_response client_id (ipv4 seen_ip) 5000 refl (omega arith) seen-IsAddr

-- As a dual-stack socket reports it.
abbrev mapped_ip : Bytes
mapped_ip = replicate 10 0 ++ (255 ∷ 255 ∷ seen_ip)

mapped_seen : addr_port_of mapped_ip 5000 ≡ some seen
unfolding addr_port_of unmap bytes_eq
mapped_seen = refl

serve_stun-binding_request_example :
    (answer : Bytes) × (serve_stun (binding_request client_id) mapped_ip 5000 ≡ some answer)
    × (parse_stun answer ≡ ok (record { typ = 257; id = client_id; mapped = some seen }))
serve_stun-binding_request_example =
    serve_stun-binding_request client_id mapped_ip 5000 seen refl
      (
        omega arith,
        (
          omega arith,
          (
            omega arith,
            (
              omega arith,
              (
                omega arith,
                (
                  omega arith,
                  (
                    omega arith,
                    (
                      omega arith,
                      (omega arith, (omega arith, (omega arith, (omega arith, seen_bytes)))),
                    ),
                  ),
                ),
              ),
            ),
          ),
        ),
      )
      mapped_seen

-- A comment of three bytes, which is padded, then the address in the plain form.
abbrev two_attributes : List (ℕ × Bytes)
two_attributes = (0x8022, 1 ∷ 2 ∷ 3 ∷ []) ∷ (0x0001, 0 ∷ 1 ∷ 19 ∷ 136 ∷ 10 ∷ 0 ∷ 0 ∷ 1 ∷ []) ∷ []

two-Sendable : All Sendable two_attributes
unfolding Sendable
two-Sendable = ((omega arith, omega arith), ((omega arith, omega arith), tt))

two_short : length (encode_attributes two_attributes) < 65536
unfolding encode_attributes pad_of put_be16
two_short = omega arith

parse_stun-stun_message_example :
    parse_stun (stun_message 257 client_id (encode_attributes two_attributes))
    ≡ ok (record { typ = 257; id = client_id; mapped = some seen })
unfolding last_xor first_plain decode_address be16 be32 put_be32 slice
parse_stun-stun_message_example =
    parse_stun-stun_message 257 client_id two_attributes refl (omega arith) refl two-Sendable
      two_short

parse_stun_total_example :
    ((is_stun (5 ∷ []) ≡ false) × (parse_stun (5 ∷ []) ≡ err not_stun))
    ⊎ ((is_stun (5 ∷ []) ≡ true)
        × (1 < 20 + be16 (slice 2 4 (5 ∷ [])))
        × (parse_stun (5 ∷ []) ≡ err truncated))
    ⊎ ((m : StunMessage) × (is_stun (5 ∷ []) ≡ true)
        × (20 + be16 (slice 2 4 (5 ∷ [])) ≤ 1)
        × (parse_stun (5 ∷ []) ≡ ok m)
        × (m.typ ≡ be16 (slice 0 2 (5 ∷ [])))
        × (m.id ≡ slice 8 20 (5 ∷ [])))
parse_stun_total_example = parse_stun_total (5 ∷ [])
