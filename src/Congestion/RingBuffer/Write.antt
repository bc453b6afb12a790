-- ===== src/Congestion/RingBuffer/Write.antt =====
-- A write through the place that `Offset` gives.
use open_air.Prelude.{
  ℕ, zero, suc, ◌<◌, ◌≡◌, ◌≢◌, refl, sym, ap, ◌∙◌, true, false, ◌∷◌, ◌==◌, ==_iff, if◌then◌else◌,
  length, get_or, set, length-set, get_or-set_self, get_or-set_ne, some, arith, dec_lt, ℕ_discrete,
}
use open_air.Congestion.RingBuffer.{RingBuffer, len, offset}
use open_air.Congestion.RingBuffer.Contents.{tabulate, tabulate_ext, place, contents, IsValid}
use open_air.Congestion.RingBuffer.Places.{
  place_in_range, place_injective, place-mod, len-le, is_empty-len,
}

never : (k : ℕ) → (suc k == 0) ≡ false
never k = ground arith

never_zero : (k : ℕ) → (0 == suc k) ≡ false
never_zero k = ground arith

same_test : (k i : ℕ) → (suc k == suc i) ≡ (k == i)
same_test k i = ground arith

module _ {ℓ} {A : Type ℓ} (z : A) where
  set-tabulate :
      (f : ℕ → A) (n i : ℕ) (a : A)
      → set (tabulate f n) i a ≡ tabulate (λ k. if k == i then a else f k) n
  set-tabulate f zero i a = refl
  set-tabulate f (suc n) zero a = ap (◌∷◌ a) (
      tabulate_ext (λ k. f (suc k)) (λ k. if suc k == 0 then a else f (suc k)) n
        (λ k p. rw (never k) refl))
  set-tabulate f (suc n) (suc i) a =
      let head : (if 0 == suc i then a else f 0) ≡ f 0 = rw (never_zero i) refl in
      let rest = tabulate (λ k. if suc k == suc i then a else f (suc k)) n in
      ap (◌∷◌ (f 0)) (
        set-tabulate (λ k. f (suc k)) n i a
        ∙ tabulate_ext (λ k. if k == i then a else f (suc k))
            (λ k. if suc k == suc i then a else f (suc k)) n (λ k p. rw (same_test k i) refl))
      ∙ ap (λ x. x ∷ rest) (sym head)

  -- A write at the place of an index writes the contents there.
  module _ (r : RingBuffer A) (i : ℕ) (a : A) (v : IsValid r) (near : i < len r) where
    abbrev pub at_place : ℕ
    at_place = place (length r.ring) r.head_pos i

    abbrev pub written : RingBuffer A
    written = record r { ring = set r.ring at_place a }

    pub offset-place : offset r i ≡ some at_place
    unfolding offset
    offset-place =
        ground
          (arith, place-mod (length r.ring) r.head_pos i, is_empty-len r v, len-le r v, v.in_range)

    pub written-IsValid : IsValid written
    written-IsValid = record {
      in_range = ground (arith, length-set r.ring at_place a, v.in_range);
      full_meets = v.full_meets;
    }

    head_inside : r.head_pos < length r.ring
    head_inside = ground (arith, v.in_range, near, len-le r v)

    inside : at_place < length r.ring
    inside =
        place_in_range (length r.ring) r.head_pos i head_inside (omega (arith, near, len-le r v))

    apart : (k : ℕ) → k < len r → k ≢ i → at_place ≢ place (length r.ring) r.head_pos k
    apart k p ne = elim (dec_lt i k) [
      | yes after ↦
          place_injective (length r.ring) r.head_pos i k head_inside after
            (omega (arith, p, len-le r v))
      | no not_after ↦ λ e.
          place_injective (length r.ring) r.head_pos k i head_inside (ground (arith, ne, not_after))
            (omega (arith, near, len-le r v)) (sym e)
    ]

    pub len-written : len written ≡ len r
    unfolding len
    len-written = rw (length-set r.ring at_place a) refl

    read_written :
        (k : ℕ)
        → k < len r
        → get_or (set r.ring at_place a) (place (length r.ring) r.head_pos k) z
          ≡ (if k == i then a else get_or r.ring (place (length r.ring) r.head_pos k) z)
    read_written k p = elim (ℕ_discrete k i) [
      | yes e ↦
          let t : (k == i) ≡ true = (==_iff k i).1 e in
          ap (λ j. get_or (set r.ring at_place a) (place (length r.ring) r.head_pos j) z) e
          ∙ get_or-set_self r.ring at_place a z inside
          ∙ rw t refl
      | no ne ↦
          let t : (k == i) ≡ false = ground (arith, ne) in
          get_or-set_ne r.ring at_place (place (length r.ring) r.head_pos k) a z (apart k p ne)
          ∙ rw t refl
    ]

    pub contents-written : contents z written ≡ set (contents z r) i a
    contents-written =
        rw (len-written, length-set r.ring at_place a)
          (tabulate_ext _ _ (len r) read_written ∙ sym (set-tabulate _ (len r) i a))
