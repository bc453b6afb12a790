-- ===== src/Paths/Stun/Attributes.antt =====
-- The loop over the attributes of a message ends, and reads what a sender wrote.
use mathlib.Core.List.{append_assoc}
use open_air.Prelude.{
  ℕ, zero, suc, ◌+◌, ◌-◌, ◌%◌, ◌^◌, ◌≤◌, ◌<◌, ◌≡◌, inl, inr, refl, sym, ap, subst, ◌∙◌, false,
  Bool-cases, List, [], ◌∷◌, ◌++◌, ltb, length, length-append, length-drop, length-replicate, drop,
  slice, slice_at, drop_at, replicate, Bytes, Option, some, Option-cases, ok, All, arith,
}
use open_air.Paths.Stun.{
  AddrPort, put_be16, be16, apply_attribute, padding, attribute_turn, attribute_loop,
}

pub be16-put_be16 : (v : ℕ) → v < 2 ^ 16 → be16 (put_be16 v) ≡ v
unfolding be16 put_be16
be16-put_be16 v h = omega arith

some_bytes : {a b : Bytes} → some a ≡ some b → a ≡ b
some_bytes h = cc

-- The next attributes are fewer bytes.
attribute_turn_shrinks :
    (id attrs : Bytes) (mapped : Option AddrPort) (rest : Bytes)
    → (attribute_turn id attrs mapped).1 ≡ some rest
    → length rest < length attrs
unfolding attribute_turn
attribute_turn_shrinks id attrs mapped rest h =
    let attr_len = be16 (slice 2 4 attrs) in
    let advance = 4 + attr_len + padding attr_len in
    elim (Bool-cases (ltb (length attrs) 4)) [
      | inl short ↦ absurd (grind (arith, rw (attribute_turn, short) at h))
      | inr enough ↦ elim (Bool-cases (ltb (length attrs) (4 + attr_len))) [
        | inl short ↦ absurd (grind (arith, rw (attribute_turn, enough, short) at h))
        | inr whole ↦ elim (Bool-cases (ltb (length attrs) advance)) [
          | inl last ↦ absurd (grind (arith, rw (attribute_turn, enough, whole, last) at h))
          | inr more ↦
              let this : drop advance attrs ≡ rest =
                some_bytes (rw (attribute_turn, enough, whole, more) at h) in
              let fewer : length (drop advance attrs) < length attrs =
                ground (arith, length-drop advance attrs, enough) in
              subst (λ l. length l < length attrs) this fewer
        ]
      ]
    ]

-- With a round for each byte and one more, the loop ends.
pub attribute_loop-ok :
    (n : ℕ) (id attrs : Bytes) (mapped : Option AddrPort)
    → length attrs < n
    → (m : Option AddrPort) × (attribute_loop n id attrs mapped ≡ ok m)
unfolding attribute_loop
attribute_loop-ok zero id attrs mapped h = absurd (omega arith)
attribute_loop-ok (suc n) id attrs mapped h =
    let turn = attribute_turn id attrs mapped in
    elim (Option-cases turn.1) [
      | inl e ↦ (turn.0, rw (attribute_loop, e) refl)
      | inr (rest, e) ↦
          let (m, f) =
            attribute_loop-ok n id rest turn.0
              (omega (arith, attribute_turn_shrinks id attrs mapped rest e)) in
          (m, rw (attribute_loop, e) f)
    ]

-- The bytes up to a multiple of four.
unfoldable pub pad_of : ℕ → ℕ
pad_of n = (4 - n % 4) % 4

padding_lem : (n : ℕ) → padding n ≡ pad_of n
unfolding padding pad_of
padding_lem n = ground arith

-- An attribute as it is sent: its type, the length of its value, the value, and padding to a
-- multiple of four bytes.
unfoldable pub encode_attributes : List (ℕ × Bytes) → Bytes
encode_attributes [] = []
encode_attributes ((t, v) ∷ us) =
    put_be16 t
    ++ (put_be16 (length v) ++ (v ++ (replicate (pad_of (length v)) 0 ++ encode_attributes us)))

-- What the attributes say, taken one by one.
unfoldable pub apply_all : Bytes → List (ℕ × Bytes) → Option AddrPort → Option AddrPort
apply_all id [] mapped = mapped
apply_all id ((t, v) ∷ us) mapped = apply_all id us (apply_attribute id t v mapped)

-- A type and a length of two bytes.
unfoldable pub Sendable : ℕ × Bytes → Type 0
Sendable (t, v) = (t < 2 ^ 16) × (length v < 2 ^ 16)

-- A turn on attributes that begin with a whole one.
attribute_turn_whole :
    (id attrs : Bytes) (mapped : Option AddrPort) (t n : ℕ) (v rest : Bytes)
    → be16 (slice 0 2 attrs) ≡ t
    → be16 (slice 2 4 attrs) ≡ n
    → slice 4 (4 + n) attrs ≡ v
    → drop (4 + n + pad_of n) attrs ≡ rest
    → 4 + n + pad_of n ≤ length attrs
    → attribute_turn id attrs mapped ≡ (apply_attribute id t v mapped, some rest)
unfolding attribute_turn
attribute_turn_whole id attrs mapped t n v rest kind size value next room =
    let enough : ltb (length attrs) 4 ≡ false = ground (arith, room) in
    let whole : ltb (length attrs) (4 + n) ≡ false = ground (arith, room) in
    let more : ltb (length attrs) (4 + n + pad_of n) ≡ false = ground (arith, room) in
    rw (attribute_turn, enough, kind, size, whole, value, padding_lem n, more, next) refl

attribute_turn_encoded :
    (id : Bytes) (t : ℕ) (v rest : Bytes) (mapped : Option AddrPort)
    → t < 2 ^ 16
    → length v < 2 ^ 16
    → attribute_turn id
        (put_be16 t ++ (put_be16 (length v) ++ (v ++ (replicate (pad_of (length v)) 0 ++ rest))))
        mapped
      ≡ (apply_attribute id t v mapped, some rest)
unfolding attribute_turn put_be16
attribute_turn_encoded id t v rest mapped small short =
    let pad = replicate (pad_of (length v)) 0 in
    let front = put_be16 t ++ put_be16 (length v) in
    let kind =
      slice_at 0 2 [] (put_be16 t) (put_be16 (length v) ++ (v ++ (pad ++ rest))) refl refl in
    let size = slice_at 2 4 (put_be16 t) (put_be16 (length v)) (v ++ (pad ++ rest)) refl refl in
    let value = slice_at 4 (4 + length v) front v (pad ++ rest) refl refl in
    let skipped : length (front ++ (v ++ pad)) ≡ 4 + length v + pad_of (length v) =
      omega (arith, length-append v pad, length-replicate {A = ℕ} (pad_of (length v)) 0) in
    let next = drop_at (4 + length v + pad_of (length v)) (front ++ (v ++ pad)) rest skipped in
    let total : length (v ++ (pad ++ rest)) ≡ length v + (pad_of (length v) + length rest) = omega (
      arith,
      length-append v (pad ++ rest),
      length-append pad rest,
      length-replicate {A = ℕ} (pad_of (length v)) 0,
    ) in
    attribute_turn_whole id (front ++ (v ++ (pad ++ rest))) mapped t (length v) v rest
      (ap be16 kind ∙ be16-put_be16 t small) (ap be16 size ∙ be16-put_be16 (length v) short) value
      (ap (drop (4 + length v + pad_of (length v)))
          (ap (◌++◌ front) (sym (append_assoc v pad rest)))
        ∙ next)
      (omega (arith, total, length-append front (v ++ (pad ++ rest))))

loop_nil :
    (n : ℕ) (id : Bytes) (mapped : Option AddrPort)
    → attribute_loop (suc n) id [] mapped ≡ ok mapped
unfolding attribute_loop attribute_turn
loop_nil n id mapped = refl

loop_step :
    (n : ℕ) (id attrs rest : Bytes) (mapped m : Option AddrPort)
    → ◌≡◌ {A = Option AddrPort × Option Bytes} (attribute_turn id attrs mapped) (m, some rest)
    → attribute_loop (suc n) id attrs mapped ≡ attribute_loop n id rest m
unfolding attribute_loop
loop_step n id attrs rest mapped m h =
    let next : (attribute_turn id attrs mapped).1 ≡ some rest = ap (λ t. t.1) h in
    let now : (attribute_turn id attrs mapped).0 ≡ m = ap (λ t. t.0) h in
    rw (attribute_loop, next, now) refl

fewer_left :
    (t : ℕ) (v : Bytes) (us : List (ℕ × Bytes)) (n : ℕ)
    → length (encode_attributes ((t, v) ∷ us)) < suc n
    → length (encode_attributes us) < n
unfolding encode_attributes put_be16
fewer_left t v us n h =
    let pad : Bytes = replicate (pad_of (length v)) 0 in
    omega (
      arith,
      h,
      length-append v (pad ++ encode_attributes us),
      length-append pad (encode_attributes us),
    )

-- The loop on what `encode_attributes` wrote, with enough fuel.
pub attribute_loop-encode_attributes :
    (n : ℕ) (id : Bytes) (us : List (ℕ × Bytes)) (mapped : Option AddrPort)
    → All Sendable us
    → length (encode_attributes us) < n
    → attribute_loop n id (encode_attributes us) mapped ≡ ok (apply_all id us mapped)
unfolding encode_attributes apply_all Sendable
attribute_loop-encode_attributes zero id us mapped fit h = absurd (omega arith)
attribute_loop-encode_attributes (suc n) id [] mapped fit h = loop_nil n id mapped
attribute_loop-encode_attributes (suc n) id ((t, v) ∷ us) mapped (fit, fits) h =
    let turn = attribute_turn_encoded id t v (encode_attributes us) mapped fit.0 fit.1 in
    let rest =
      attribute_loop-encode_attributes n id us (apply_attribute id t v mapped) fits
        (fewer_left t v us n h) in
    loop_step n id (encode_attributes ((t, v) ∷ us)) (encode_attributes us) mapped
      (apply_attribute id t v mapped) turn
    ∙ rest
