-- ===== src/Congestion/PacketQueue/Emplacing.antt =====
-- `Emplace` against the map.
use open_air.Prelude.{
  ℕ, suc, ◌+◌, ◌-◌, ◌≤◌, ◌<◌, ◌≡◌, ◌⊎◌, inl, inr, refl, sym, ap, ◌∙◌, true, false, Bool-cases, List,
  [], ◌∷◌, ◌++◌, leb, ltb, ◌==◌, if◌then◌else◌, length, get_or, none, some, arith,
}
use open_air.Congestion.RingBuffer.{len}
use open_air.Congestion.RingBuffer.Contents.{contents}
use open_air.Congestion.RingBuffer.Places.{length-contents}
use open_air.Congestion.RingBuffer.Push.{push_back-Pushes}
use open_air.Congestion.PacketQueue.{
  EntryWrapper, PacketQueue, absent, holding, emplace_behind, emplace,
}
use open_air.Congestion.PacketQueue.View.{
  value, count_present, count_present-append, slots, view, Valid, is_empty_queue_none,
  is_empty_queue_some,
}
use open_air.Congestion.PacketQueue.Gap.{
  tail_of, push_after_lem, count_tail, first_only, behind_gap, view_at, view-none,
}

module _ {ℓ} {A : Type ℓ} (z : A) where
  -- A number behind all that the queue holds.
  abbrev pub Behind : PacketQueue A → ℕ → Type 0
  Behind q packet_number =
      (first : ℕ) × (q.first_packet ≡ some first) × (first + len q.entries ≤ packet_number)

  -- What `Emplace` that succeeds has to deliver.
  pub record Emplaced (q : PacketQueue A) (packet_number : ℕ) (a : A) (q' : PacketQueue A)
      : Type ℓ where
    pub still_valid : Valid z q'
    pub one_more : q'.number_of_present_entries ≡ suc q.number_of_present_entries
    pub entries_are :
        (other : ℕ) → view z q' other ≡ (if other == packet_number then some a else view z q other)

  module _ (q : PacketQueue A) (packet_number : ℕ) (a : A) (v : Valid z q) where
    -- Into an empty queue.
    emplace_first :
        q.first_packet ≡ none
        → slots z q ≡ []
        → (q' : PacketQueue A) × (emplace z q (some packet_number) (some a) ≡ some (q', true))
          × Emplaced q packet_number a q'
    unfolding emplace count_present
    emplace_first f e =
        let (r, pushed, valid, c) = push_back-Pushes (absent z) q.entries (holding z a) v.ring in
        let only : contents (absent z) r ≡ holding z a ∷ [] =
          c ∙ ap (λ l. l ++ (holding z a ∷ [])) e in
        let none_before : q.number_of_present_entries ≡ 0 = v.count ∙ ap count_present e in
        let q' : PacketQueue A = record {
          entries = r;
          number_of_present_entries = 1;
          first_packet = some packet_number;
        } in
        (
          q',
          rw (emplace, is_empty_queue_none z q v e, pushed) refl,
          record {
            still_valid = record {
              ring = valid;
              count = sym (ap count_present only);
              shape = inr (packet_number, holding z a, [], refl, only, refl);
            };
            one_more = ap suc (sym none_before);
            entries_are = λ other.
                view_at z q' packet_number other (holding z a ∷ []) refl only
                ∙ first_only z packet_number other a
                ∙ rw (view-none z q other f) refl;
          },
        )

    -- Behind what the queue holds.
    emplace_next :
        (first : ℕ) (w : EntryWrapper A) (rest : List (EntryWrapper A))
        → q.first_packet ≡ some first
        → slots z q ≡ w ∷ rest
        → w.present ≡ true
        → leb packet_number (first + (len q.entries - 1)) ≡ false
        → (q' : PacketQueue A) × (emplace z q (some packet_number) (some a) ≡ some (q', true))
          × Emplaced q packet_number a q'
    unfolding emplace emplace_behind
    emplace_next first w rest f e p behind =
        let gap = packet_number - first - len q.entries in
        let (r, pushed, valid, c) = push_after_lem z gap a q.entries v.ring in
        let q' : PacketQueue A = record q {
          entries = r;
          number_of_present_entries = suc q.number_of_present_entries;
        } in
        let size : length (slots z q) ≡ len q.entries = length-contents (absent z) q.entries in
        let some_there : length (slots z q) ≡ suc (length rest) = ap length e in
        (
          q',
          simp (emplace, is_empty_queue_some z q w rest v e p, f, emplace_behind, behind, pushed)
              refl,
          record {
            still_valid = record {
              ring = valid;
              count = sym (
                  ap count_present c
                  ∙ count_present-append (slots z q) (tail_of z gap a)
                  ∙ omega (arith, count_tail z gap a, v.count));
              shape =
                  inr
                    (first, w, rest ++ tail_of z gap a, f, c ∙ ap (λ l. l ++ tail_of z gap a) e, p);
            };
            one_more = refl;
            entries_are = λ other.
                view_at z q' first other (slots z q ++ tail_of z gap a) f c
                ∙ ap
                    (λ n.
                      if ltb other first
                      then none
                      else value (
                          get_or (slots z q ++ tail_of z (packet_number - first - n) a)
                            (other - first) (absent z)))
                    (sym size)
                ∙ behind_gap z (slots z q) first packet_number other a
                    (ground (arith, behind, size, some_there))
                ∙ rw (view_at z q first other (slots z q) f refl) refl;
          },
        )

  -- `Emplace` on a valid queue never panics. Either the queue is empty or the packet number is behind
  -- the last one, and then the entry is put in: the queue stays valid, holds one entry more, and gives
  -- this entry for this number and what it gave before for any other. Or the number is one up to the
  -- last one, and then it is refused and nothing changes. An invalid number, or a call without an
  -- entry, is refused and changes nothing.
  pub emplace_lem :
      (q : PacketQueue A) (packet_number : ℕ) (a : A)
      → Valid z q
      → ((((q.first_packet ≡ none) ⊎ Behind q packet_number)
            × ((q' : PacketQueue A) × (emplace z q (some packet_number) (some a) ≡ some (q', true))
                × Emplaced q packet_number a q'))
          ⊎ ((first : ℕ) × (q.first_packet ≡ some first)
              × (packet_number < first + len q.entries)
              × (emplace z q (some packet_number) (some a) ≡ some (q, false))))
        × (emplace z q none (some a) ≡ some (q, false))
        × (emplace z q (some packet_number) none ≡ some (q, false))
  unfolding emplace emplace_behind
  emplace_lem q packet_number a v = (
    elim v.shape [
      | inl (f, e) ↦ inl (inl f, emplace_first q packet_number a v f e)
      | inr (first, w, rest, f, e, p) ↦
          elim (Bool-cases (leb packet_number (first + (len q.entries - 1)))) [
            | inr behind ↦
                let size = length-contents (absent z) q.entries in
                inl (
                  inr (first, f, ground (arith, behind, ap length e, size)),
                  emplace_next q packet_number a v first w rest f e p behind,
                )
            | inl late ↦
                let size = length-contents (absent z) q.entries in
                inr (
                  first,
                  f,
                  ground (arith, late, ap length e, size),
                  simp (emplace, is_empty_queue_some z q w rest v e p, f, emplace_behind, late)
                      refl,
                )
          ]
    ],
    refl,
    refl,
  )
