-- ===== src/Session/Hello/Negotiation.antt =====
-- What `negotiate` settles, against the offers of the two peers.
use open_air.Prelude.{
  ℕ, min, ◌+◌, ◌≡◌, inl, inr, refl, sym, ◌∙◌, Bool, true, false, not, ◌&&◌, ◌||◌, Bool-cases, List,
  [], ◌∷◌, leb, ltb, ◌==◌, ==_iff, if◌then◌else◌, Option, none, some, Option-cases, leb→le, arith,
}
use open_air.Prelude.Int.{pos}
use open_air.Prelude.NumMaps.{NumMap, find, has_key, find-store}
use open_air.Session.Convert.{cap_id_to_wire, cap_id_from_wire}
use open_air.Session.Convert.Laws.{cap_id_wire_iff}
use open_air.Session.Hello.{
  Capability, HandlerInfo, local_cap_version, advertised_ids, insert_id, sort_ids, advertise,
  local_capabilities, negotiate_one, negotiate_onto, negotiate,
}

-- Whether an entry of the list offers the capability of a wire id.
unfoldable pub offers : ℕ → Option Capability → Bool
offers cap_id none = false
offers cap_id (some c) = elim (cap_id_to_wire c.id) [ none ↦ false | some j ↦ cap_id == j ]

abbrev pub version_of : Option Capability → ℕ
version_of none = 0
version_of (some c) = c.version

-- The version of the last entry that offers it.
unfoldable pub last_offer : ℕ → List (Option Capability) → Option ℕ
last_offer cap_id [] = none
last_offer cap_id (c ∷ cs) = elim (last_offer cap_id cs) [
  | some v ↦ some v
  | none ↦ if offers cap_id c then some (version_of c) else none
]

abbrev lower : Option ℕ → Option ℕ → Option ℕ
lower none before = before
lower (some v) before = some (min local_cap_version v)

abbrev pub usable : NumMap HandlerInfo → ℕ → Bool
usable hs cap_id = not (cap_id == 0) && has_key cap_id hs

module _ (hs : NumMap HandlerInfo) (cap_id : ℕ) where
  find-negotiate_one :
      (c : Option Capability) (out : NumMap ℕ)
      → find cap_id (negotiate_one hs c out) ≡ (
          if usable hs cap_id && offers cap_id c
          then some (min local_cap_version (version_of c))
          else find cap_id out)
  unfolding negotiate_one offers
  find-negotiate_one none out = ground arith
  find-negotiate_one (some c) out = elim (Option-cases (cap_id_to_wire c.id)) [
    | inl e ↦ rw (negotiate_one, offers, e) (ground arith)
    | inr (j, e) ↦
        rw (negotiate_one, offers, e)
          (elim (Bool-cases (cap_id == j)) [
            | inl same ↦
                let this : cap_id ≡ j = (==_iff cap_id j).0 same in
                rw (← this)
                  (ground (arith, find-store cap_id cap_id (min local_cap_version c.version) out))
            | inr other ↦ ground (arith, find-store cap_id j (min local_cap_version c.version) out)
          ])
  ]

  find-negotiate_onto :
      (cs : List (Option Capability)) (out : NumMap ℕ)
      → find cap_id (negotiate_onto hs cs out) ≡ (
          if usable hs cap_id
          then lower (last_offer cap_id cs) (find cap_id out)
          else find cap_id out)
  unfolding negotiate_onto last_offer
  find-negotiate_onto [] out = ground arith
  find-negotiate_onto (c ∷ cs) out =
      find-negotiate_onto cs (negotiate_one hs c out)
      ∙ rw (find-negotiate_one c out) (elim (Option-cases (last_offer cap_id cs)) [
        | inl e ↦ rw (last_offer, e) (ground arith)
        | inr (v, e) ↦ rw (last_offer, e) (ground arith)
      ])

  -- What is settled for a capability: nothing unless a handler is registered for it, its wire id is
  -- not 0 and the peer's list offers it; otherwise the lower of this build's version and the version
  -- in the last entry that offers it. Entries that are nil or name no known capability count for
  -- nothing.
  pub negotiate_lem :
      (cs : List (Option Capability))
      → find cap_id (negotiate hs cs)
        ≡ (if usable hs cap_id then lower (last_offer cap_id cs) none else none)
  unfolding negotiate find
  negotiate_lem cs = find-negotiate_onto cs []

-- Membership in what is sorted and advertised.
unfoldable pub member : ℕ → List ℕ → Bool
member id [] = false
member id (j ∷ js) = (id == j) || member id js

member-insert_id :
    (id j : ℕ) (js : List ℕ) → member id (insert_id j js) ≡ ((id == j) || member id js)
unfolding member insert_id
member-insert_id id j [] = refl
member-insert_id id j (k ∷ js) = ground (arith, member-insert_id id j js)

member-sort_ids : (id : ℕ) (js : List ℕ) → member id (sort_ids js) ≡ member id js
unfolding member sort_ids
member-sort_ids id [] = refl
member-sort_ids id (j ∷ js) = member-insert_id id j (sort_ids js) ∙ rw (member-sort_ids id js) refl

has_key_step :
    (id j : ℕ) (h : HandlerInfo) (hs : NumMap HandlerInfo)
    → has_key id ((j, h) ∷ hs) ≡ ((id == j) || has_key id hs)
unfolding has_key find
has_key_step id j h hs = elim (Bool-cases (id == j)) [
  | inl e ↦ rw (has_key, find, e) refl
  | inr e ↦ rw (has_key, find, e) refl
]

member-advertised_ids :
    (id : ℕ) (hs : NumMap HandlerInfo) → member id (advertised_ids hs) ≡ usable hs id
unfolding member advertised_ids has_key find
member-advertised_ids id [] = ground arith
member-advertised_ids id ((j, h) ∷ hs) =
    rw (has_key_step id j h hs) (ground (arith, member-advertised_ids id hs))

-- The entry that a wire id is advertised with.
offers-advertised :
    (cap_id id : ℕ) (enum_id : _) (v : ℕ)
    → cap_id_from_wire id ≡ some enum_id
    → offers cap_id (some (record { id = enum_id; version = v })) ≡ (cap_id == id)
unfolding offers
offers-advertised cap_id id enum_id v e = rw (offers, ((cap_id_wire_iff enum_id id).0).1 e) refl

not_advertised : (id : ℕ) → cap_id_from_wire id ≡ none → leb 8 id ≡ true
not_advertised id e = elim (Bool-cases (leb 8 id)) [
  | inl h ↦ h
  | inr h ↦
      let known = ((cap_id_wire_iff (pos (id + 1)) id).1).1 (ground (arith, h), refl) in
      absurd (grind (arith, e, known))
]

last_offer-advertise :
    (cap_id : ℕ) (ids : List ℕ)
    → last_offer cap_id (advertise ids)
      ≡ (if member cap_id ids && ltb cap_id 8 then some local_cap_version else none)
unfolding last_offer advertise member
last_offer-advertise cap_id [] = refl
last_offer-advertise cap_id (id ∷ ids) =
    let rest = last_offer-advertise cap_id ids in
    elim (Option-cases (cap_id_from_wire id)) [
      | inl e ↦ rw (advertise, e, rest) (ground (arith, leb→le 8 id (not_advertised id e)))
      | inr (enum_id, e) ↦
          let small = ((cap_id_wire_iff enum_id id).1.0 e).0 in
          let own = offers-advertised cap_id id enum_id local_cap_version e in
          elim (Bool-cases (member cap_id ids && ltb cap_id 8)) [
            | inl h ↦ rw (advertise, e, last_offer, rest, h) (ground (arith, h))
            | inr h ↦ rw (advertise, e, last_offer, rest, h, own) (ground (arith, h, small))
          ]
    ]

last_offer-local_capabilities :
    (cap_id : ℕ) (hs : NumMap HandlerInfo)
    → last_offer cap_id (local_capabilities hs)
      ≡ (if usable hs cap_id && ltb cap_id 8 then some local_cap_version else none)
unfolding local_capabilities
last_offer-local_capabilities cap_id hs =
    last_offer-advertise cap_id (sort_ids (advertised_ids hs))
    ∙ rw (member-sort_ids cap_id (advertised_ids hs), member-advertised_ids cap_id hs) refl

-- Each peer settles what the other settles: from the list that the other device sends, a capability
-- has the version of this build on both sides if both have a handler for it and its wire id is from
-- 1 to 7, and is not usable on either side otherwise.
pub negotiate_agree :
    (here there : NumMap HandlerInfo) (cap_id : ℕ)
    → (find cap_id (negotiate here (local_capabilities there))
        ≡ find cap_id (negotiate there (local_capabilities here)))
      × (find cap_id (negotiate here (local_capabilities there)) ≡ (
          if usable here cap_id && usable there cap_id && ltb cap_id 8
          then some local_cap_version
          else none))
negotiate_agree here there cap_id =
    let settled : (hs gs : NumMap HandlerInfo)
        → find cap_id (negotiate hs (local_capabilities gs)) ≡ (
            if usable hs cap_id && usable gs cap_id && ltb cap_id 8
            then some local_cap_version
            else none) =
      λ hs gs.
        negotiate_lem hs cap_id (local_capabilities gs)
        ∙ rw (last_offer-local_capabilities cap_id gs) (ground arith) in
    (settled here there ∙ ground arith ∙ sym (settled there here), settled here there)
