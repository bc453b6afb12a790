-- ===== src/Congestion/PacketQueue/Gap.antt =====
-- What `Emplace` puts in, and how the map reads it.
use mathlib.Core.List.{append_assoc}
use open_air.Prelude.{
  ℕ, zero, suc, ◌+◌, ◌-◌, ◌≤◌, ◌≡◌, refl, ap, ◌∙◌, true, false, List, [], ◌∷◌, ◌++◌, ltb, ◌==◌,
  if◌then◌else◌, length, get_or, get_or-append_left, get_or-append_right, replicate, none, some,
  lt→ltb, arith, dec_lt,
}
use open_air.Congestion.RingBuffer.{RingBuffer}
use open_air.Congestion.RingBuffer.Contents.{contents, IsValid}
use open_air.Congestion.RingBuffer.Push.{push_back-Pushes}
use open_air.Congestion.PacketQueue.{EntryWrapper, PacketQueue, absent, holding, push_after}
use open_air.Congestion.PacketQueue.View.{value, count_present, get_or_past, slots, view}

module _ {ℓ} {A : Type ℓ} (z : A) where
  -- What goes in behind a gap.
  abbrev pub tail_of : ℕ → A → List (EntryWrapper A)
  tail_of gap a = replicate gap (absent z) ++ (holding z a ∷ [])

  pub push_after_lem :
      (gap : ℕ) (a : A) (r : RingBuffer (EntryWrapper A))
      → IsValid r
      → (r' : RingBuffer (EntryWrapper A)) × (push_after z gap a r ≡ some r')
        × IsValid r'
        × (contents (absent z) r' ≡ contents (absent z) r ++ tail_of gap a)
  unfolding push_after
  push_after_lem zero a r v = push_back-Pushes (absent z) r (holding z a) v
  push_after_lem (suc gap) a r v =
      let (r', e, v', c) = push_back-Pushes (absent z) r (absent z) v in
      let (r'', e', v'', c') = push_after_lem gap a r' v' in
      (
        r'',
        rw (push_after, e) e',
        v'',
        c'
            ∙ ap (λ l. l ++ tail_of gap a) c
            ∙ append_assoc (contents (absent z) r) (absent z ∷ []) (tail_of gap a),
      )

  pub count_tail : (gap : ℕ) (a : A) → count_present (tail_of gap a) ≡ 1
  unfolding count_present
  count_tail zero a = refl
  count_tail (suc gap) a = count_tail gap a

  length-tail_of : (gap : ℕ) (a : A) → length (tail_of gap a) ≡ suc gap
  length-tail_of zero a = refl
  length-tail_of (suc gap) a = ap suc (length-tail_of gap a)

  -- Only the last of it is present.
  value_tail :
      (gap i : ℕ) (a : A)
      → value (get_or (tail_of gap a) i (absent z)) ≡ (if i == gap then some a else none)
  unfolding value
  value_tail zero zero a = refl
  value_tail zero (suc i) a = ground arith
  value_tail (suc gap) zero a = ground arith
  value_tail (suc gap) (suc i) a = value_tail gap i a ∙ ground arith

  value-absent : value (absent z) ≡ none
  unfolding value
  value-absent = refl

  -- Reading behind what was there.
  value_append :
      (ws : List (EntryWrapper A)) (gap i : ℕ) (a : A)
      → value (get_or (ws ++ tail_of gap a) i (absent z))
        ≡ (if i == length ws + gap then some a else value (get_or ws i (absent z)))
  value_append ws gap i a = elim (dec_lt i (length ws)) [
    | yes near ↦
        ap value (get_or-append_left ws (tail_of gap a) i (absent z) near) ∙ ground (arith, near)
    | no far ↦
        ap value (get_or-append_right ws (tail_of gap a) i (absent z) (omega arith))
        ∙ value_tail gap (i - length ws) a
        ∙ rw (get_or_past ws i (absent z) (omega arith), value-absent) (ground (arith, far))
  ]

  pub first_only :
      (packet_number other : ℕ) (a : A)
      → (if ltb other packet_number
          then none
          else value (get_or (holding z a ∷ []) (other - packet_number) (absent z)))
        ≡ (if other == packet_number then some a else none)
  unfolding value
  first_only packet_number other a = elim (dec_lt packet_number other) [
    | yes after ↦ ground (
      arith,
      after,
      get_or_past (holding z a ∷ []) (other - packet_number) (absent z) (omega arith),
    )
    | no up_to ↦ elim (dec_lt other packet_number) [
      | yes before ↦ ground (arith, before)
      | no here ↦
          let this : other ≡ packet_number = omega arith in
          let at : other - packet_number ≡ 0 = omega arith in rw at (ground (arith, this))
    ]
  ]

  pub behind_gap :
      (ws : List (EntryWrapper A)) (first packet_number other : ℕ) (a : A)
      → first + length ws ≤ packet_number
      → (if ltb other first
          then none
          else value (
              get_or
                (ws ++ tail_of (packet_number - first - length ws) a)
                (other - first)
                (absent z)))
        ≡ (if other == packet_number
            then some a
            else if ltb other first
            then none
            else value (get_or ws (other - first) (absent z)))
  behind_gap ws first packet_number other a h =
      rw (value_append ws (packet_number - first - length ws) (other - first) a)
        (elim (dec_lt other first) [
          | yes before ↦
              let t : ltb other first ≡ true = lt→ltb other first before in
              let n : (other == packet_number) ≡ false = ground (arith, h, before) in rw (t, n) refl
          | no behind ↦
              let t : ltb other first ≡ false = ground (arith, behind) in
              let same : (other - first == length ws + (packet_number - first - length ws))
                  ≡ (other == packet_number) =
                ground (arith, h, behind) in
              rw (t, same) refl
        ])

  -- How the map reads a queue with a first packet.
  pub view_at :
      (q : PacketQueue A) (first other : ℕ) (ws : List (EntryWrapper A))
      → q.first_packet ≡ some first
      → slots z q ≡ ws
      → view z q other
        ≡ (if ltb other first then none else value (get_or ws (other - first) (absent z)))
  unfolding view
  view_at q first other ws f e = rw (view, f, e) refl

  pub view-none : (q : PacketQueue A) (other : ℕ) → q.first_packet ≡ none → view z q other ≡ none
  unfolding view
  view-none q other f = rw (view, f) refl
