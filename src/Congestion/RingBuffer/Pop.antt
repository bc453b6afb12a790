-- ===== src/Congestion/RingBuffer/Pop.antt =====
-- `PopFront` on a valid ring.
use open_air.Prelude.{
  ℕ, suc, ◌≤◌, ◌<◌, ◌≡◌, sym, ap, ◌∙◌, ◌≢◌, ◌⊎◌, inl, inr, false, Bool-cases, [], ◌∷◌, none, some,
  length, get_or, set, length-set, get_or-set_ne, get_elem?-eq-get_or, arith,
}
use open_air.Congestion.RingBuffer.{RingBuffer, len, is_empty, pop_front}
use open_air.Congestion.RingBuffer.Contents.{tabulate_ext, place, contents, IsValid}
use open_air.Congestion.RingBuffer.Places.{next_place, len-le, is_empty-contents}

module _ {ℓ} {A : Type ℓ} (z : A) where
  -- What `PopFront` leaves, where it does not panic.
  abbrev popped : RingBuffer A → RingBuffer A
  popped r = record {
    ring = set r.ring r.head_pos z;
    head_pos = next_place r r.head_pos;
    tail_pos = r.tail_pos;
    full = false;
  }

  module _ (r : RingBuffer A) (v : IsValid r) (some_left : is_empty r ≡ false) where
    pop_front-eq : pop_front z r ≡ some (get_or r.ring r.head_pos z, popped r)
    unfolding pop_front is_empty
    pop_front-eq = ground (arith, v.in_range, get_elem?-eq-get_or r.ring r.head_pos z)

    popped-IsValid : IsValid (popped r)
    unfolding is_empty
    popped-IsValid = record {
      in_range = inr (
        ground (arith, length-set r.ring r.head_pos z),
        ground (arith, length-set r.ring r.head_pos z),
      );
      full_meets = λ e. ground arith;
    }

    len-popped : len r ≡ suc (len (popped r))
    unfolding len is_empty
    len-popped = ground (arith, length-set r.ring r.head_pos z, v.in_range)

    at_head : place (length r.ring) r.head_pos 0 ≡ r.head_pos
    unfolding is_empty
    at_head = ground (arith, v.in_range)

    len-popped-lt : suc (len (popped r)) ≤ length r.ring
    len-popped-lt = omega (arith, len-popped, len-le r v)

    shifted :
        (i : ℕ)
        → i < len (popped r)
        → (place (length r.ring) (next_place r r.head_pos) i
            ≡ place (length r.ring) r.head_pos (suc i))
          × (r.head_pos ≢ place (length r.ring) r.head_pos (suc i))
    unfolding is_empty
    shifted i p =
        (ground (arith, v.in_range, len-popped-lt), λ e. ground (arith, v.in_range, len-popped-lt))

    contents-popped : contents z r ≡ get_or r.ring r.head_pos z ∷ contents z (popped r)
    contents-popped =
        rw (len-popped, at_head, length-set r.ring r.head_pos z)
          (ap (◌∷◌ (get_or r.ring r.head_pos z)) (
            tabulate_ext _ _ (len (popped r)) λ i p.
              let (same, other) = shifted i p in
              sym (
                ap (λ k. get_or (set r.ring r.head_pos z) k z) same
                ∙ get_or-set_ne r.ring r.head_pos _ z z other)))

  -- `PopFront` on a valid ring panics exactly on the empty one; otherwise it takes the oldest
  -- element off, and the ring stays valid.
  pub pop_front_lem :
      (r : RingBuffer A)
      → IsValid r
      → ((contents z r ≡ []) × (pop_front z r ≡ none))
        ⊎ ((a : A) × (r' : RingBuffer A) × (contents z r ≡ a ∷ contents z r')
            × (pop_front z r ≡ some (a, r'))
            × IsValid r')
  pop_front_lem r v = elim (Bool-cases (is_empty r)) [
    | inl e ↦ inl ((is_empty-contents z r v).0 e, unfold pop_front in rw e)
    | inr e ↦ inr (
      get_or r.ring r.head_pos z,
      popped r,
      contents-popped r v e,
      pop_front-eq r v e,
      popped-IsValid r v e,
    )
  ]
