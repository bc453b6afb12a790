-- ===== src/Paths/Stun/Server.antt =====
-- A client that asks the server where its packets come from.
use open_air.Prelude.{
  ℕ, ◌^◌, ◌<◌, ◌≡◌, inl, inr, refl, sym, subst, true, Bool-cases, [], ◌∷◌, ◌++◌, ◌==◌, ==_iff,
  length, length-drop, take, drop, take-append-drop, replicate, Bytes, bytes_eq, IsByte, All,
  All-split, none, some, Option-cases, Result-cases, ok, arith,
}
use open_air.Paths.Stun.{
  ipv4, ipv6, AddrPort, StunMessage, stun_binding_request, stun_binding_response, is_stun,
  binding_request, binding_response, parse_stun, unmap, addr_port_of, serve_stun,
}
use open_air.Paths.Stun.Attributes.{encode_attributes, apply_all}
use open_air.Paths.Stun.Parse.{message_is_stun, parse_stun-apply_all}
use open_air.Paths.Stun.Answer.{IsAddr, parse_stun-binding_response}

some_bytes : {a b : Bytes} → some a ≡ some b → a ≡ b
some_bytes h = cc

some_injective : {p q : AddrPort} → some p ≡ some q → p ≡ q
some_injective h = cc

unmap-IsAddr : (ip : Bytes) → length ip ≡ 16 → All IsByte ip → IsAddr (unmap (ipv6 ip))
unfolding unmap IsAddr
unmap-IsAddr ip l bytes =
    elim (Bool-cases (bytes_eq (take 12 ip) (replicate 10 0 ++ (255 ∷ 255 ∷ [])))) [
      | inl mapped ↦
          let last =
            (All-split IsByte (take 12 ip) (drop 12 ip)
              (subst (All IsByte) (sym (take-append-drop 12 ip)) bytes)).1 in
          rw mapped (omega (arith, l, length-drop 12 ip), last)
      | inr other ↦ rw other l
    ]

four_bytes : (ip : Bytes) → length ip ≡ 4 → All IsByte ip → IsAddr (ipv4 ip)
unfolding IsAddr
four_bytes ip l bytes = (l, bytes)

addr_port_of-IsAddr :
    (ip : Bytes) (port : ℕ) (p : AddrPort)
    → All IsByte ip
    → addr_port_of ip port ≡ some p
    → IsAddr p.addr × (p.port < 2 ^ 16)
unfolding addr_port_of
addr_port_of-IsAddr ip port p bytes h = elim (Bool-cases (length ip == 4)) [
  | inl four ↦
      let this = some_injective (rw (addr_port_of, four) at h) in
      subst (λ q. IsAddr q.addr × (q.port < 2 ^ 16)) this
        (four_bytes ip ((==_iff (length ip) 4).0 four) bytes, omega arith)
  | inr other ↦ elim (Bool-cases (length ip == 16)) [
    | inl sixteen ↦
        let this = some_injective (rw (addr_port_of, other, sixteen) at h) in
        subst (λ q. IsAddr q.addr × (q.port < 2 ^ 16)) this
          (unmap-IsAddr ip ((==_iff (length ip) 16).0 sixteen) bytes, omega arith)
    | inr neither ↦ absurd (grind (arith, rw (addr_port_of, other, neither) at h))
  ]
]

is_request : (id : Bytes) → length id ≡ 12 → is_stun (binding_request id) ≡ true
unfolding binding_request
is_request id l = message_is_stun stun_binding_request id [] l refl

request_parsed :
    (id : Bytes)
    → length id ≡ 12
    → parse_stun (binding_request id)
      ≡ ok (record { typ = stun_binding_request; id = id; mapped = none })
unfolding binding_request encode_attributes apply_all
request_parsed id l =
    parse_stun-apply_all stun_binding_request id [] l (omega arith) refl tt (omega arith)

-- A client that sends a binding request with an id of 12 bytes gets an answer, and reads from it the
-- address that the server saw, an IPv4 address that came as an IPv6 one taken for what it is, with
-- its own id. What came is an address of bytes that `netip` can hold.
pub serve_stun-binding_request :
    (id ip : Bytes) (port : ℕ) (p : AddrPort)
    → length id ≡ 12
    → All IsByte ip
    → addr_port_of ip port ≡ some p
    → (answer : Bytes) × (serve_stun (binding_request id) ip port ≡ some answer)
      × (parse_stun answer ≡ ok (record { typ = stun_binding_response; id = id; mapped = some p }))
unfolding serve_stun
serve_stun-binding_request id ip port p l bytes h =
    let (valid, small) = addr_port_of-IsAddr ip port p bytes h in
    (
      binding_response id p,
      rw (serve_stun, is_request id l, request_parsed id l, h) refl,
      parse_stun-binding_response id p.addr p.port l small valid,
    )

-- The server answers nothing but a binding request that parses, from an address that `netip` can
-- hold, and answers with the id of the request and that address.
pub serve_stun_only :
    (packet ip : Bytes) (port : ℕ) (answer : Bytes)
    → serve_stun packet ip port ≡ some answer
    → (m : StunMessage) × (p : AddrPort) × (parse_stun packet ≡ ok m)
      × (m.typ ≡ stun_binding_request)
      × (addr_port_of ip port ≡ some p)
      × (answer ≡ binding_response m.id p)
unfolding serve_stun
serve_stun_only packet ip port answer h = elim (Bool-cases (is_stun packet)) [
  | inr other ↦ absurd (grind (arith, rw (serve_stun, other) at h))
  | inl stun ↦ elim (Result-cases (parse_stun packet)) [
    | inr (e, f) ↦ absurd (grind (arith, rw (serve_stun, stun, f) at h))
    | inl (m, f) ↦ elim (Bool-cases (m.typ == stun_binding_request)) [
      | inr other ↦ absurd (grind (arith, rw (serve_stun, stun, f, other) at h))
      | inl request ↦ elim (Option-cases (addr_port_of ip port)) [
        | inl n ↦ absurd (grind (arith, rw (serve_stun, stun, f, request, n) at h))
        | inr (p, a) ↦ (
          m,
          p,
          f,
          (==_iff m.typ stun_binding_request).0 request,
          a,
          sym (some_bytes (rw (serve_stun, stun, f, request, a) at h)),
        )
      ]
    ]
  ]
]
