-- ===== src/Congestion/PacketQueue/Clearing.antt =====
-- `clearup`, which takes what is not present off the front.
use open_air.Prelude.{
  ℕ, zero, suc, ◌-◌, ◌<◌, ◌≡◌, ◌≢◌, ◌⊎◌, inl, inr, refl, sym, ap, ◌∙◌, true, false, not, Bool-cases,
  List, [], ◌∷◌, ltb, if◌then◌else◌, length, get_or, none, some, lt→ltb, arith, dec_lt,
}
use open_air.Congestion.RingBuffer.{len, is_empty}
use open_air.Congestion.RingBuffer.Contents.{IsValid}
use open_air.Congestion.RingBuffer.Places.{length-contents, is_empty-contents}
use open_air.Congestion.RingBuffer.Access.{offset_lem}
use open_air.Congestion.RingBuffer.Pop.{pop_front_lem}
use open_air.Congestion.PacketQueue.{
  EntryWrapper, PacketQueue, absent, drop_front, front_absent, clear_loop, clearup,
}
use open_air.Congestion.PacketQueue.View.{value, count_present, slots, view, Valid}
use open_air.Congestion.PacketQueue.Gap.{view_at, view-none}

module _ {ℓ} {A : Type ℓ} (z : A) where
  -- The front of the ring is the first of the slots.
  front_absent_nil :
      (q : PacketQueue A) → IsValid q.entries → slots z q ≡ [] → front_absent z q ≡ false
  unfolding front_absent
  front_absent_nil q v e =
      let size : len q.entries ≡ 0 = sym (length-contents (absent z) q.entries) ∙ ap length e in
      let (places, at_front, at_back) = offset_lem (absent z) q.entries 0 v in
      elim places [
        | inl (far, nothing) ↦ rw (front_absent, at_front, nothing) refl
        | inr (near, there) ↦ absurd (omega (arith, near, size))
      ]

  front_absent_cons :
      (q : PacketQueue A) (w : EntryWrapper A) (rest : List (EntryWrapper A))
      → IsValid q.entries
      → slots z q ≡ w ∷ rest
      → front_absent z q ≡ not w.present
  unfolding front_absent
  front_absent_cons q w rest v e =
      let size : len q.entries ≡ suc (length rest) =
        sym (length-contents (absent z) q.entries) ∙ ap length e in
      let (places, at_front, at_back) = offset_lem (absent z) q.entries 0 v in
      elim places [
        | inl (far, nothing) ↦ absurd (omega (arith, far, size))
        | inr (near, (p, there, inside, same)) ↦
            let this : get_or q.entries.ring p (absent z) ≡ w =
              same ∙ ap (λ l. get_or l 0 (absent z)) e in
            rw (front_absent, at_front, there, this) refl
      ]

  -- An absent entry at the front says nothing.
  skipped :
      (w : EntryWrapper A) (rest : List (EntryWrapper A)) (first other : ℕ)
      → w.present ≡ false
      → (if ltb other first then none else value (get_or (w ∷ rest) (other - first) (absent z))) ≡ (
          if ltb other (suc first)
          then none
          else value (get_or rest (other - suc first) (absent z)))
  unfolding value
  skipped w rest first other p = elim (dec_lt other first) [
    | yes before ↦
        let t : ltb other first ≡ true = lt→ltb other first before in
        let u : ltb other (suc first) ≡ true = lt→ltb other (suc first) (omega arith) in
        rw (t, u) refl
    | no from ↦ elim (dec_lt first other) [
      | yes after ↦
          let t : ltb other first ≡ false = ground (arith, from) in
          let u : ltb other (suc first) ≡ false = ground (arith, after) in
          let i : other - first ≡ suc (other - suc first) = omega arith in rw (t, u, i) refl
      | no here ↦
          let t : ltb other first ≡ false = ground (arith, from) in
          let u : ltb other (suc first) ≡ true = lt→ltb other (suc first) (omega arith) in
          let i : other - first ≡ 0 = omega arith in rw (t, u, i, p) refl
    ]
  ]

  cons_injective :
      {w u : EntryWrapper A} {ws us : List (EntryWrapper A)} → (w ∷ ws) ≡ (u ∷ us) → ws ≡ us
  cons_injective h = cc

  cons_nil : {w : EntryWrapper A} {ws : List (EntryWrapper A)} → (w ∷ ws) ≢ []
  cons_nil h = absurd (grind (arith, h))

  nothing_there :
      (first other : ℕ)
      → (if ltb other first then none else value (get_or [] (other - first) (absent z))) ≡ none
  unfolding value
  nothing_there first other = elim (Bool-cases (ltb other first)) [
    | inl t ↦ rw t refl
    | inr t ↦ rw t refl
  ]

  -- What the loop leaves: the same entries, with a front that is present, if any.
  pub record Cleared (q q' : PacketQueue A) (first' : ℕ) : Type ℓ where
    pub ring : IsValid q'.entries
    pub first : q'.first_packet ≡ some first'
    pub same_number : q'.number_of_present_entries ≡ q.number_of_present_entries
    pub same_count : count_present (slots z q') ≡ count_present (slots z q)
    pub same_view : (other : ℕ) → view z q' other ≡ view z q other
    pub trimmed :
        (slots z q' ≡ [])
        ⊎ ((w : EntryWrapper A) × (rest : List (EntryWrapper A)) × (slots z q' ≡ w ∷ rest)
            × (w.present ≡ true))

  clear_loop-Cleared :
      (n : ℕ) (q : PacketQueue A) (ws : List (EntryWrapper A)) (first : ℕ)
      → IsValid q.entries
      → q.first_packet ≡ some first
      → slots z q ≡ ws
      → length ws < n
      → (q' : PacketQueue A) × (first' : ℕ) × (clear_loop z n q ≡ some q') × Cleared q q' first'
  unfolding clear_loop drop_front count_present
  clear_loop-Cleared zero q ws first v f e h = absurd (omega arith)
  clear_loop-Cleared (suc n) q [] first v f e h = (
    q,
    first,
    rw (clear_loop, front_absent_nil q v e) refl,
    record {
      ring = v;
      first = f;
      same_number = refl;
      same_count = refl;
      same_view = λ other. refl;
      trimmed = inl e;
    },
  )
  clear_loop-Cleared (suc n) q (w ∷ rest) first v f e h = elim (Bool-cases w.present) [
    | inl here ↦ (
      q,
      first,
      rw (clear_loop, front_absent_cons q w rest v e, here) refl,
      record {
        ring = v;
        first = f;
        same_number = refl;
        same_count = refl;
        same_view = λ other. refl;
        trimmed = inr (w, rest, e, here);
      },
    )
    | inr gone ↦ elim (pop_front_lem (absent z) q.entries v) [
      | inl (empty, fails) ↦ absurd (grind (arith, sym empty ∙ e))
      | inr (a, r, c, pops, v') ↦
          let q₁ : PacketQueue A = record q { entries = r; first_packet = some (suc first) } in
          let tail : slots z q₁ ≡ rest = cons_injective (sym c ∙ e) in
          let (q', first', runs, k) =
            clear_loop-Cleared n q₁ rest (suc first) v' refl tail (omega arith) in
          (
            q',
            first',
            simp (clear_loop, front_absent_cons q w rest v e, gone, drop_front, pops, f) runs,
            record {
              ring = k.ring;
              first = k.first;
              same_number = k.same_number;
              same_count =
                  k.same_count ∙ ap count_present tail ∙ sym (ap count_present e ∙ rw gone refl);
              same_view = λ other.
                  k.same_view other
                  ∙ view_at z q₁ (suc first) other rest refl tail
                  ∙ sym (skipped w rest first other gone)
                  ∙ sym (view_at z q first other (w ∷ rest) f e);
              trimmed = k.trimmed;
            },
          )
    ]
  ]

  -- `clearup` makes a queue valid whose count is right, and changes no entry.
  pub clearup_lem :
      (q : PacketQueue A) (first : ℕ)
      → IsValid q.entries
      → q.first_packet ≡ some first
      → q.number_of_present_entries ≡ count_present (slots z q)
      → (q' : PacketQueue A) × (clearup z q ≡ some q')
        × Valid z q'
        × (q'.number_of_present_entries ≡ q.number_of_present_entries)
        × ((other : ℕ) → view z q' other ≡ view z q other)
  unfolding clearup
  clearup_lem q first v f count =
      let (q', first', runs, k) =
        clear_loop-Cleared (suc (len q.entries)) q (slots z q) first v f refl
          (omega (arith, length-contents (absent z) q.entries)) in
      let right = k.same_number ∙ count ∙ sym k.same_count in
      elim k.trimmed [
        | inl e ↦
            let emptied : PacketQueue A = record q' { first_packet = none } in
            (
              emptied,
              simp (clearup, runs, (is_empty-contents (absent z) q'.entries k.ring).1 e) refl,
              record { ring = k.ring; count = right; shape = inl (refl, e) },
              k.same_number,
              λ other.
                  view-none z emptied other refl
                  ∙ sym (nothing_there first' other)
                  ∙ sym (view_at z q' first' other [] k.first e)
                  ∙ k.same_view other,
            )
        | inr (w, rest, e, here) ↦
            let full : is_empty q'.entries ≡ false = elim (Bool-cases (is_empty q'.entries)) [
              | inr full ↦ full
              | inl empty ↦
                  let no_slots = (is_empty-contents (absent z) q'.entries k.ring).0 empty in
                  absurd (cons_nil (sym e ∙ no_slots))
            ] in
            (
              q',
              simp (clearup, runs, full) refl,
              record {
                ring = k.ring;
                count = right;
                shape = inr (first', w, rest, k.first, e, here);
              },
              k.same_number,
              k.same_view,
            )
      ]
