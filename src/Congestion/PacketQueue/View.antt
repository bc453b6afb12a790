-- ===== src/Congestion/PacketQueue/View.antt =====
-- The queue as a map from packet numbers to entries, and when its fields make sense.
use open_air.Prelude.{
  ℕ, zero, suc, ◌+◌, ◌-◌, ◌≤◌, ◌≡◌, ◌⊎◌, inl, inr, refl, ap, ◌∙◌, true, false, Bool-cases, List, [],
  ◌∷◌, ◌++◌, leb, ltb, if◌then◌else◌, length, get_or, Option, none, some, arith,
}
use open_air.Congestion.RingBuffer.{len}
use open_air.Congestion.RingBuffer.Contents.{contents, IsValid}
use open_air.Congestion.RingBuffer.Places.{length-contents}
use open_air.Congestion.RingBuffer.Access.{offset_lem}
use open_air.Congestion.PacketQueue.{
  EntryWrapper, PacketQueue, absent, is_empty_queue, entry_place, get_entry,
}

module _ {ℓ} {A : Type ℓ} where
  unfoldable pub value : EntryWrapper A → Option A
  value w = if w.present then some w.entry else none

  unfoldable pub count_present : List (EntryWrapper A) → ℕ
  count_present [] = 0
  count_present (w ∷ ws) = let rest = count_present ws in if w.present then suc rest else rest

  pub count_present-append :
      (us ws : List (EntryWrapper A))
      → count_present (us ++ ws) ≡ count_present us + count_present ws
  unfolding count_present
  count_present-append [] ws = omega arith
  count_present-append (u ∷ us) ws = ground (arith, count_present-append us ws)

  pub get_or_past :
      (ws : List (EntryWrapper A)) (i : ℕ) (d : EntryWrapper A) → length ws ≤ i → get_or ws i d ≡ d
  get_or_past [] i d h = refl
  get_or_past (w ∷ ws) zero d h = absurd (omega arith)
  get_or_past (w ∷ ws) (suc i) d h = get_or_past ws i d (omega arith)

module _ {ℓ} {A : Type ℓ} (z : A) where
  abbrev pub slots : PacketQueue A → List (EntryWrapper A)
  slots q = contents (absent z) q.entries

  -- The entry of a packet number.
  unfoldable pub view : PacketQueue A → ℕ → Option A
  view q packet_number = elim q.first_packet [
    | none ↦ none
    | some first ↦
        if ltb packet_number first
        then none
        else value (get_or (slots q) (packet_number - first) (absent z))
  ]

  -- The ring is valid, the count is right, and there is a first packet if and only if the ring holds
  -- anything, whose entry is present.
  pub record Valid (q : PacketQueue A) : Type ℓ where
    pub ring : IsValid q.entries
    pub count : q.number_of_present_entries ≡ count_present (slots q)
    pub shape :
        ((q.first_packet ≡ none) × (slots q ≡ []))
        ⊎ ((first : ℕ) × (w : EntryWrapper A) × (rest : List (EntryWrapper A)) × (q.first_packet
              ≡ some first)
            × (slots q ≡ w ∷ rest)
            × (w.present ≡ true))

  pub is_empty_queue_none : (q : PacketQueue A) → Valid q → slots q ≡ [] → is_empty_queue q ≡ true
  unfolding is_empty_queue count_present
  is_empty_queue_none q v e =
      let c : q.number_of_present_entries ≡ 0 = v.count ∙ ap count_present e in rw c refl

  pub is_empty_queue_some :
      (q : PacketQueue A) (w : EntryWrapper A) (rest : List (EntryWrapper A))
      → Valid q
      → slots q ≡ w ∷ rest
      → w.present ≡ true
      → is_empty_queue q ≡ false
  unfolding is_empty_queue count_present
  is_empty_queue_some q w rest v e p =
      let c : q.number_of_present_entries ≡ suc (count_present rest) =
        v.count ∙ ap count_present e ∙ rw p refl in
      ground (arith, c)

  -- What stands in the ring is what the map says.
  entry_value :
      (q : PacketQueue A) (first packet_number : ℕ)
      → Valid q
      → is_empty_queue q ≡ false
      → q.first_packet ≡ some first
      → get_entry z q (some packet_number) ≡ some (view q packet_number)
  unfolding get_entry entry_place view value
  entry_value q first packet_number v full f = elim (Bool-cases (ltb packet_number first)) [
    | inl before ↦ rw (get_entry, entry_place, f, full, before, view) refl
    | inr behind ↦
        let i = packet_number - first in
        elim (Bool-cases (leb (len q.entries) i)) [
          | inl past ↦
              let out =
                get_or_past (slots q) i (absent z)
                  (ground (arith, length-contents (absent z) q.entries, past)) in
              rw (get_entry, entry_place, f, full, behind, past, view, out) refl
          | inr within ↦ elim (offset_lem (absent z) q.entries i v.ring).0 [
            | inl (far, none_there) ↦ absurd (ground (arith, within, far))
            | inr (near, (p, there, inside, same)) ↦
                elim (Bool-cases (get_or q.entries.ring p (absent z)).present) [
                  | inl here ↦
                      rw
                        (
                          get_entry,
                          entry_place,
                          f,
                          full,
                          behind,
                          within,
                          there,
                          here,
                          view,
                          value,
                          ← same,
                          here,
                        )
                        refl
                  | inr gone ↦
                      rw
                        (
                          get_entry,
                          entry_place,
                          f,
                          full,
                          behind,
                          within,
                          there,
                          gone,
                          view,
                          value,
                          ← same,
                          gone,
                        )
                        refl
                ]
          ]
        ]
  ]

  -- On a valid queue `GetEntry` never panics, and gives what the map has for the packet number, nil
  -- where it has nothing.
  pub get_entry-view :
      (q : PacketQueue A) (packet_number : ℕ)
      → Valid q
      → get_entry z q (some packet_number) ≡ some (view q packet_number)
  unfolding get_entry entry_place view
  get_entry-view q packet_number v = elim v.shape [
    | inl (f, e) ↦ rw (get_entry, entry_place, f, view) refl
    | inr (first, w, rest, f, e, p) ↦
        entry_value q first packet_number v (is_empty_queue_some q w rest v e p) f
  ]
