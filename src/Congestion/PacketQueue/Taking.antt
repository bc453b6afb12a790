-- ===== src/Congestion/PacketQueue/Taking.antt =====
-- Where an entry stands, and the slots once it is marked as not present.
use open_air.Prelude.{
  ℕ, zero, suc, ◌-◌, ◌≤◌, ◌<◌, ◌≡◌, ◌⊎◌, inl, inr, refl, sym, ap, ◌∙◌, true, false, Bool-cases,
  List, [], ◌∷◌, leb, ltb, ◌==◌, ==_iff, if◌then◌else◌, length, get_or, set, get_or-set_self,
  get_or-set_ne, none, some, arith, ℕ_discrete,
}
use open_air.Congestion.RingBuffer.{len}
use open_air.Congestion.RingBuffer.Places.{length-contents}
use open_air.Congestion.RingBuffer.Access.{offset_lem}
use open_air.Congestion.RingBuffer.Write.{at_place, offset-place}
use open_air.Congestion.PacketQueue.{EntryWrapper, PacketQueue, absent, is_empty_queue, entry_place}
use open_air.Congestion.PacketQueue.View.{value, count_present, get_or_past, slots, view, Valid}

some_number : {a b : ℕ} → some a ≡ some b → a ≡ b
some_number h = cc

module _ {ℓ} {A : Type ℓ} where
  -- The entry taken out of a list of slots.
  abbrev pub gone : EntryWrapper A → EntryWrapper A
  gone w = record w { present = false }

  pub count-set :
      (ws : List (EntryWrapper A)) (i : ℕ) (w d : EntryWrapper A)
      → i < length ws
      → (get_or ws i d).present ≡ true
      → suc (count_present (set ws i (gone w))) ≡ count_present ws
  unfolding count_present
  count-set [] i w d h p = absurd (omega arith)
  count-set (u ∷ us) zero w d h p = rw p refl
  count-set (u ∷ us) (suc i) w d h p = elim (Bool-cases u.present) [
    | inl here ↦ rw here (ap suc (count-set us i w d (omega arith) p))
    | inr away ↦ rw away (count-set us i w d (omega arith) p)
  ]

  value_gone : (w : EntryWrapper A) → value (gone w) ≡ none
  unfolding value
  value_gone w = refl

  pub value-set :
      (ws : List (EntryWrapper A)) (i k : ℕ) (w d : EntryWrapper A)
      → i < length ws
      → value (get_or (set ws i (gone w)) k d) ≡ (if k == i then none else value (get_or ws k d))
  value-set ws i k w d h = elim (ℕ_discrete k i) [
    | yes e ↦
        let t : (k == i) ≡ true = (==_iff k i).1 e in
        ap (λ j. value (get_or (set ws i (gone w)) j d)) e
        ∙ ap value (get_or-set_self ws i (gone w) d h)
        ∙ value_gone w
        ∙ rw t refl
    | no ne ↦
        let t : (k == i) ≡ false = ground (arith, ne) in
        ap value (get_or-set_ne ws i k (gone w) d (λ e. ne (sym e))) ∙ rw t refl
  ]

module _ {ℓ} {A : Type ℓ} (z : A) (q : PacketQueue A) (packet_number : ℕ) (v : Valid z q) where
  -- Where an entry stands that the map has.
  pub record Found (first : ℕ) (place : ℕ) : Type ℓ where
    pub from : first ≤ packet_number
    pub near : packet_number - first < len q.entries
    pub place_is :
        place ≡ at_place (absent z) q.entries (packet_number - first) (absent z) v.ring near
    pub there : entry_place z q packet_number ≡ some (some place)
    pub slot :
        get_or q.entries.ring place (absent z)
        ≡ get_or (slots z q) (packet_number - first) (absent z)
    pub here : (get_or q.entries.ring place (absent z)).present ≡ true

  pub entry_place-cases :
      (first : ℕ)
      → q.first_packet ≡ some first
      → is_empty_queue q ≡ false
      → ((entry_place z q packet_number ≡ some none) × (view z q packet_number ≡ none))
        ⊎ ((place : ℕ) × Found first place)
  unfolding entry_place view value
  entry_place-cases first f full = elim (Bool-cases (ltb packet_number first)) [
    | inl before ↦ inl (rw (entry_place, f, full, before) refl, rw (view, f, before) refl)
    | inr behind ↦
        let i = packet_number - first in
        elim (Bool-cases (leb (len q.entries) i)) [
          | inl past ↦
              let out =
                get_or_past (slots z q) i (absent z)
                  (ground (arith, length-contents (absent z) q.entries, past)) in
              inl (rw (entry_place, f, full, behind, past) refl, rw (view, f, behind, out) refl)
          | inr within ↦ elim (offset_lem (absent z) q.entries i v.ring).0 [
            | inl (far, none_there) ↦ absurd (ground (arith, within, far))
            | inr (near, (p, there, inside, same)) ↦
                elim (Bool-cases (get_or q.entries.ring p (absent z)).present) [
                  | inr away ↦ inl (
                    rw (entry_place, f, full, behind, within, there, away) refl,
                    rw (view, f, behind, value, ← same, away) refl,
                  )
                  | inl here ↦ inr (
                    p,
                    record {
                      from = ground (arith, behind);
                      near = near;
                      place_is =
                          some_number (
                            sym there ∙ offset-place (absent z) q.entries i (absent z) v.ring near);
                      there = rw (entry_place, f, full, behind, within, there, here) refl;
                      slot = same;
                      here = here;
                    },
                  )
                ]
          ]
        ]
  ]
