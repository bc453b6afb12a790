-- ===== src/Congestion/RingBuffer/Push.antt =====
-- `PushBack` and `grow` on a valid ring.
use open_air.Prelude.{
  ℕ, ◌+◌, ◌-◌, ◌*◌, ◌≤◌, ◌<◌, ◌≡◌, refl, sym, ap, ◌∙◌, ◌≢◌, inl, inr, true, false, Bool-cases,
  dec_lt, ◌||◌, List, [], ◌∷◌, ◌++◌, Option, some, ◌==◌, if◌then◌else◌, length, get_or, set, take,
  drop, replicate, length-set, length-append, length-take, length-drop, length-replicate,
  get_or-set_self, get_or-set_ne, get_or-append_left, get_or-append_right, get_or-drop, get_or-take,
  arith,
}
use native.Mathlib.Numerals.{add-one}
use open_air.Congestion.RingBuffer.{RingBuffer, len, grow, push_at_tail, push_back}
use open_air.Congestion.RingBuffer.Contents.{tabulate_ext, tabulate_snoc, place, contents, IsValid}
use open_air.Congestion.RingBuffer.Places.{next_place, place_injective}

module _ {ℓ} {A : Type ℓ} (z : A) where
  -- What `push_at_tail` leaves, where it does not fault.
  abbrev pushed : RingBuffer A → A → RingBuffer A
  pushed r a = record {
    ring = set r.ring r.tail_pos a;
    head_pos = r.head_pos;
    tail_pos = next_place r r.tail_pos;
    full = if next_place r r.tail_pos == r.head_pos then true else r.full;
  }

  module _ (r : RingBuffer A) (a : A) (h : r.head_pos < length r.ring)
      (t : r.tail_pos < length r.ring) (f : r.full ≡ false) where
    push_at_tail-eq : push_at_tail z r a ≡ some (pushed r a)
    unfolding push_at_tail
    push_at_tail-eq = ground arith

    pushed-IsValid : IsValid (pushed r a)
    pushed-IsValid = record {
      in_range = inr (
        ground (arith, length-set r.ring r.tail_pos a),
        ground (arith, length-set r.ring r.tail_pos a),
      );
      full_meets = λ e. ground arith;
    }

    len-pushed : len (pushed r a) ≡ len r + 1
    unfolding len
    len-pushed = ground (arith, length-set r.ring r.tail_pos a)

    place-len : place (length r.ring) r.head_pos (len r) ≡ r.tail_pos
    unfolding len
    place-len = ground arith

    len-lt : len r < length r.ring
    unfolding len
    len-lt = ground arith

    kept : (i : ℕ) → i < len r → r.tail_pos ≢ place (length r.ring) r.head_pos i
    kept i p e =
        place_injective (length r.ring) r.head_pos i (len r) h p len-lt (sym e ∙ sym place-len)

    contents-pushed : contents z (pushed r a) ≡ contents z r ++ (a ∷ [])
    contents-pushed =
        rw (len-pushed, length-set r.ring r.tail_pos a, add-one)
          (tabulate_snoc _ (len r) ∙ (λ i.
            tabulate_ext _ _ (len r) (λ k p. get_or-set_ne r.ring r.tail_pos _ a z (kept k p)) i
            ++ (last i ∷ [])))
      where
        last : get_or (set r.ring r.tail_pos a) (place (length r.ring) r.head_pos (len r)) z ≡ a
        last = rw place-len (get_or-set_self r.ring r.tail_pos a z t)

  -- Reading a list that was cut at `h` and put together the other way round.
  get_or-rotated :
      (old zs : List A) (h i : ℕ)
      → h ≤ length old
      → i < length old
      → get_or (drop h old ++ (take h old ++ zs)) i z ≡ get_or old (place (length old) h i) z
  get_or-rotated old zs h i p q = elim (dec_lt (h + i) (length old)) [
    | yes l ↦
        get_or-append_left (drop h old) _ i z (omega (arith, length-drop h old))
        ∙ get_or-drop h old i z
        ∙ ap (λ k. get_or old k z) (ground arith)
    | no nl ↦
        get_or-append_right (drop h old) _ i z (omega (arith, length-drop h old))
        ∙ get_or-append_left (take h old) zs _ z
            (omega (arith, length-drop h old, length-take h old))
        ∙ get_or-take h old _ z (omega (arith, length-drop h old))
        ∙ ap (λ k. get_or old k z) (ground (arith, length-drop h old))
  ]

  -- Growing a full ring, or one of no places, makes room and keeps the contents.
  module _ (r : RingBuffer A) (v : IsValid r) (tight : (r.full || length r.ring == 0) ≡ true) where
    head-le : r.head_pos ≤ length r.ring
    head-le = ground (arith, v.in_range)

    length-grow : length r.ring < length (grow z r).ring
    unfolding grow
    length-grow = ground (
      arith,
      head-le,
      length-append (drop r.head_pos r.ring) (
          take r.head_pos r.ring
          ++ replicate ((if length r.ring * 2 == 0 then 1 else length r.ring * 2) - length r.ring)
              z),
      length-append (take r.head_pos r.ring)
          (replicate ((if length r.ring * 2 == 0 then 1 else length r.ring * 2) - length r.ring) z),
      length-drop r.head_pos r.ring,
      length-take r.head_pos r.ring,
      length-replicate ((if length r.ring * 2 == 0 then 1 else length r.ring * 2) - length r.ring)
          z,
    )

    len-tight : len r ≡ length r.ring
    unfolding len
    len-tight = ground (arith, v.in_range)

    len-grow : len (grow z r) ≡ length r.ring
    unfolding len grow
    len-grow = ground arith

    fields-grow :
        ((grow z r).head_pos ≡ 0)
        × ((grow z r).tail_pos ≡ length r.ring)
        × ((grow z r).full ≡ false)
    unfolding grow
    fields-grow = (refl, refl, refl)

    contents-grow : contents z (grow z r) ≡ contents z r
    contents-grow =
        rw (len-grow, len-tight)
          (tabulate_ext _ _ (length r.ring) λ i p.
            unfold grow in
            ap (λ k. get_or (grow z r).ring k z) (at_start i p)
            ∙ get_or-rotated r.ring _ r.head_pos i head-le p)
      where
        at_start :
            (i : ℕ) → i < length r.ring → place (length (grow z r).ring) (grow z r).head_pos i ≡ i
        at_start i p = ground (arith, length-grow, fields-grow)

  -- What an operation that cannot fault has to deliver.
  abbrev pub Pushes : RingBuffer A → A → Option (RingBuffer A) → Type ℓ
  Pushes r a o =
      (r' : RingBuffer A) × (o ≡ some r') × IsValid r' × (contents z r' ≡ contents z r ++ (a ∷ []))

  push_back_roomy :
      (r : RingBuffer A) (a : A)
      → (r.full || length r.ring == 0) ≡ false
      → push_back z r a ≡ push_at_tail z r a
  unfolding push_back
  push_back_roomy r a e = rw e

  push_back_tight :
      (r : RingBuffer A) (a : A)
      → (r.full || length r.ring == 0) ≡ true
      → push_back z r a ≡ push_at_tail z (grow z r) a
  unfolding push_back
  push_back_tight r a e = rw e

  Pushes-pushed :
      (r : RingBuffer A) (a : A)
      → r.head_pos < length r.ring
      → r.tail_pos < length r.ring
      → r.full ≡ false
      → Pushes r a (push_at_tail z r a)
  Pushes-pushed r a h t f =
      (pushed r a, push_at_tail-eq r a h t f, pushed-IsValid r a h t f, contents-pushed r a h t f)

  -- `PushBack` on a valid ring never faults, full or not; the ring stays valid and holds one element
  -- more, at the end.
  pub push_back-Pushes : (r : RingBuffer A) (a : A) → IsValid r → Pushes r a (push_back z r a)
  push_back-Pushes r a v = elim (Bool-cases (r.full || length r.ring == 0)) [
    | inr roomy ↦
        rw (push_back_roomy r a roomy) (
          Pushes-pushed r a (ground (arith, v.in_range)) (ground (arith, v.in_range))
            (ground arith))
    | inl tight ↦
        let (h0, t0, f0) = fields-grow r v tight in
        let more = length-grow r v tight in
        let (r', e, v', c) = Pushes-pushed (grow z r) a (omega arith) (omega arith) f0 in
        rw (push_back_tight r a tight)
          (r', e, v', c ∙ ap (λ xs. xs ++ (a ∷ [])) (contents-grow r v tight))
  ]
