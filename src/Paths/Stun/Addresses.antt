-- ===== src/Paths/Stun/Addresses.antt =====
-- Which address a message carries, stated apart from the order in which the loop meets them.
use open_air.Prelude.{
  ℕ, ◌≡◌, inl, inr, refl, ◌∙◌, true, false, Bool-cases, List, [], ◌∷◌, ◌==◌, if◌then◌else◌, Bytes,
  Option, none, some, Option-cases, arith,
}
use open_air.Paths.Stun.{
  AddrPort, attr_mapped_address, attr_xor_mapped_address, decode_address, apply_attribute,
}
use open_air.Paths.Stun.Attributes.{apply_all}

-- What the XOR-MAPPED-ADDRESS attributes say: the last one that can be decoded.
unfoldable pub last_xor : Bytes → List (ℕ × Bytes) → Option AddrPort
last_xor id [] = none
last_xor id ((t, v) ∷ us) =
    let later = last_xor id us in
    elim later [
      | some a ↦ some a
      | none ↦ if t == attr_xor_mapped_address then decode_address id v true else none
    ]

-- What the MAPPED-ADDRESS attributes say: the first one that can be decoded.
unfoldable pub first_plain : Bytes → List (ℕ × Bytes) → Option AddrPort
first_plain id [] = none
first_plain id ((t, v) ∷ us) =
    let later = first_plain id us in
    if t == attr_mapped_address
    then elim (decode_address id v false) [ some a ↦ some a | none ↦ later ]
    else later

-- The first address, and where there is none the second.
abbrev pub prefer : Option AddrPort → Option AddrPort → Option AddrPort
prefer (some a) m = some a
prefer none m = m

keeps_first :
    (mapped : Option AddrPort) (a : AddrPort) (later : Option AddrPort)
    → prefer (elim mapped [ none ↦ some a | some m ↦ some m ]) later ≡ prefer mapped (some a)
keeps_first none a later = refl
keeps_first (some m) a later = refl

prefer_attribute :
    (id : Bytes) (t : ℕ) (v : Bytes) (mapped later_xor later_plain : Option AddrPort)
    → prefer later_xor (prefer (apply_attribute id t v mapped) later_plain)
      ≡ prefer
          (elim later_xor [
            | some a ↦ some a
            | none ↦ if t == attr_xor_mapped_address then decode_address id v true else none
          ])
          (prefer mapped (
            if t == attr_mapped_address
            then elim (decode_address id v false) [ some a ↦ some a | none ↦ later_plain ]
            else later_plain))
unfolding apply_attribute
prefer_attribute id t v mapped (some a) later_plain = refl
prefer_attribute id t v mapped none later_plain = elim (Bool-cases (t == attr_xor_mapped_address)) [
  | inl x ↦
      let n : (t == attr_mapped_address) ≡ false = ground (arith, x) in
      elim (Option-cases (decode_address id v true)) [
        | inl d ↦ rw (apply_attribute, x, n, d) refl
        | inr (a, d) ↦ rw (apply_attribute, x, n, d) refl
      ]
  | inr x ↦ elim (Bool-cases (t == attr_mapped_address)) [
    | inr n ↦ rw (apply_attribute, x, n) refl
    | inl n ↦ elim (Option-cases (decode_address id v false)) [
      | inl d ↦ rw (apply_attribute, x, n, d) refl
      | inr (a, d) ↦ rw (apply_attribute, x, n, d) (keeps_first mapped a later_plain)
    ]
  ]
]

-- An XOR-MAPPED-ADDRESS goes before a MAPPED-ADDRESS, wherever they stand.
pub apply_all-prefer :
    (id : Bytes) (us : List (ℕ × Bytes)) (mapped : Option AddrPort)
    → apply_all id us mapped ≡ prefer (last_xor id us) (prefer mapped (first_plain id us))
unfolding apply_all last_xor first_plain apply_attribute
apply_all-prefer id [] none = refl
apply_all-prefer id [] (some m) = refl
apply_all-prefer id ((t, v) ∷ us) mapped =
    apply_all-prefer id us (apply_attribute id t v mapped)
    ∙ prefer_attribute id t v mapped (last_xor id us) (first_plain id us)
