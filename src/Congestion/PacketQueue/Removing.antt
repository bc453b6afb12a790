-- ===== src/Congestion/PacketQueue/Removing.antt =====
-- `Remove` against the map.
use open_air.Prelude.{
  ℕ, suc, ◌-◌, ◌<◌, ◌≡◌, ◌⊎◌, inl, inr, refl, sym, ap, subst, ◌∙◌, true, false, Bool-cases, List,
  ◌∷◌, ltb, ◌==◌, if◌then◌else◌, length, get_or, set, none, some, arith,
}
use open_air.Congestion.RingBuffer.Contents.{place, contents, IsValid}
use open_air.Congestion.RingBuffer.Places.{length-contents}
use open_air.Congestion.RingBuffer.Write.{written, written-IsValid, contents-written}
use open_air.Congestion.PacketQueue.{
  EntryWrapper, PacketQueue, absent, entry_place, finish_remove, remove,
}
use open_air.Congestion.PacketQueue.View.{
  value, count_present, slots, view, Valid, is_empty_queue_some,
}
use open_air.Congestion.PacketQueue.Gap.{view_at, view-none}
use open_air.Congestion.PacketQueue.Clearing.{clearup_lem}
use open_air.Congestion.PacketQueue.Taking.{gone, count-set, value-set, Found, entry_place-cases}

module _ {ℓ} {A : Type ℓ} (z : A) (q : PacketQueue A) (packet_number : ℕ) (v : Valid z q) where
  -- What `Remove` has to deliver for an entry that the map has.
  pub record Removed (a : A) (q' : PacketQueue A) : Type ℓ where
    pub was_there : view z q packet_number ≡ some a
    pub still_valid : Valid z q'
    pub one_less : suc q'.number_of_present_entries ≡ q.number_of_present_entries
    pub entries_are :
        (other : ℕ) → view z q' other ≡ (if other == packet_number then none else view z q other)

  module _ (first place : ℕ) (w : EntryWrapper A) (rest : List (EntryWrapper A))
      (f : q.first_packet ≡ some first) (e : slots z q ≡ w ∷ rest) (p : w.present ≡ true)
      (at : Found z q packet_number v first place) where
    abbrev index : ℕ
    index = packet_number - first

    abbrev taken : EntryWrapper A
    taken = get_or q.entries.ring place (absent z)

    -- The queue with the entry marked.
    abbrev marked : PacketQueue A
    marked = record q {
      entries = record (q.entries) { ring = set q.entries.ring place (gone taken) };
      number_of_present_entries = q.number_of_present_entries - 1;
    }

    near_slots : index < length (slots z q)
    near_slots = ground (arith, at.near, length-contents (absent z) q.entries)

    same_ring : marked.entries ≡ written (absent z) q.entries index (gone taken) v.ring at.near
    same_ring =
        ap (λ n. record (q.entries) { ring = set q.entries.ring n (gone taken) }) at.place_is

    marked-IsValid : IsValid marked.entries
    marked-IsValid =
        subst IsValid (sym same_ring)
          (written-IsValid (absent z) q.entries index (gone taken) v.ring at.near)

    slots-marked : slots z marked ≡ set (slots z q) index (gone taken)
    slots-marked =
        ap (contents (absent z)) same_ring
        ∙ contents-written (absent z) q.entries index (gone taken) v.ring at.near

    count_less : suc (count_present (slots z marked)) ≡ count_present (slots z q)
    count_less =
        ap (λ l. suc (count_present l)) slots-marked
        ∙ count-set (slots z q) index taken (absent z) near_slots
            (ap (λ x. x.present) (sym at.slot) ∙ at.here)

    count_marked : marked.number_of_present_entries ≡ count_present (slots z marked)
    count_marked = omega (arith, count_less, v.count)

    one_less_marked : suc marked.number_of_present_entries ≡ q.number_of_present_entries
    one_less_marked = omega (arith, count_less, v.count)

    was_there : view z q packet_number ≡ some taken.entry
    unfolding view value
    was_there =
        let behind : ltb packet_number first ≡ false = ground (arith, at.from) in
        rw (view, f, behind, value, ← at.slot, at.here) refl

    view-marked :
        (other : ℕ)
        → view z marked other ≡ (if other == packet_number then none else view z q other)
    view-marked other =
        view_at z marked first other (set (slots z q) index (gone taken)) f slots-marked
        ∙ rw
            (
              value-set (slots z q) index (other - first) taken (absent z) near_slots,
              view_at z q first other (slots z q) f refl,
            )
            (elim (Bool-cases (ltb other first)) [
              | inl before ↦
                  let n : (other == packet_number) ≡ false = ground (arith, before, at.from) in
                  rw (before, n) refl
              | inr behind ↦
                  let same : (other - first == packet_number - first) ≡ (other == packet_number) =
                    ground (arith, behind, at.from) in
                  rw (behind, same) refl
            ])

    goes_on :
        remove z q (some packet_number)
        ≡ finish_remove z (some first) packet_number marked taken.entry
    unfolding remove
    goes_on =
        rw (remove, at.there) refl ∙ ap (λ o. finish_remove z o packet_number marked taken.entry) f

    -- The first slot is another, and stays.
    front_kept :
        (packet_number == first) ≡ false
        → (later : List (EntryWrapper A)) × (slots z marked ≡ w ∷ later)
    front_kept behind =
        let i : suc (index - 1) ≡ index = ground (arith, behind, at.from) in
        (
          set rest (index - 1) (gone taken),
          slots-marked
              ∙ ap (λ l. set l index (gone taken)) e
              ∙ ap (λ n. set (w ∷ rest) n (gone taken)) (sym i),
        )

    remove_found :
        (q' : PacketQueue A) × (remove z q (some packet_number) ≡ some (q', some taken.entry))
        × Removed taken.entry q'
    unfolding finish_remove
    remove_found = elim (Bool-cases (packet_number == first)) [
      | inl front ↦
          let (q', cleared, valid, number, same) =
            clearup_lem z marked first marked-IsValid f count_marked in
          (
            q',
            goes_on ∙ rw (finish_remove, front, cleared) refl,
            record {
              was_there = was_there;
              still_valid = valid;
              one_less = ap suc number ∙ one_less_marked;
              entries_are = λ other. same other ∙ view-marked other;
            },
          )
      | inr behind ↦
          let (later, still) = front_kept behind in
          (
            marked,
            goes_on ∙ rw (finish_remove, behind) refl,
            record {
              was_there = was_there;
              still_valid = record {
                ring = marked-IsValid;
                count = count_marked;
                shape = inr (first, w, later, f, still, p);
              };
              one_less = one_less_marked;
              entries_are = view-marked;
            },
          )
    ]

-- `Remove` on a valid queue never panics. For a number that the queue has an entry for, it gives that
-- entry to `f`, and the queue stays valid, holds one entry less, and has none for this number and the
-- same as before for any other; for any other number, or an invalid one, nothing changes.
pub remove_lem {ℓ} :
    {A : Type ℓ} (z : A) (q : PacketQueue A) (packet_number : ℕ) (v : Valid z q)
    → (((view z q packet_number ≡ none) × (remove z q (some packet_number) ≡ some (q, none)))
        ⊎ ((a : A) × (q' : PacketQueue A) × (remove z q (some packet_number) ≡ some (q', some a))
            × Removed z q packet_number v a q'))
      × (remove z q none ≡ some (q, none))
unfolding remove entry_place
remove_lem z q packet_number v = (
  elim v.shape [
    | inl (f, e) ↦ inl (view-none z q packet_number f, simp (remove, entry_place, f) refl)
    | inr (first, w, rest, f, e, p) ↦
        elim (entry_place-cases z q packet_number v first f
          (is_empty_queue_some z q w rest v e p)) [
            | inl (nothing, unseen) ↦ inl (unseen, rw (remove, nothing) refl)
            | inr (place, at) ↦
                let (q', runs, removed) =
                  remove_found z q packet_number v first place w rest f e p at in
                inr
                  ((taken z q packet_number v first place w rest f e p at).entry, q', runs, removed)
          ]
  ],
  refl,
)
