-- ===== src/Congestion/RingBuffer/Access.antt =====
-- Reading a valid ring, and the rings that hold nothing.
use open_air.Prelude.{
  ℕ, ◌-◌, ◌≤◌, ◌<◌, ◌≡◌, refl, sym, ◌⊎◌, inl, inr, dec_lt, [], none, some, length, get_or,
  length-replicate, arith,
}
use open_air.Congestion.RingBuffer.{RingBuffer, len, offset, front, back, init, clear}
use open_air.Congestion.RingBuffer.Contents.{place, contents, IsValid, get_or-tabulate}
use open_air.Congestion.RingBuffer.Places.{len-le, place-mod, is_empty-len}

module _ {ℓ} {A : Type ℓ} (z : A) where
  -- `Offset` gives a place exactly for the indices of the contents, inside the ring, and what stands
  -- there is the element of that index; `Front` is the first of them and `Back` the last.
  pub offset_lem :
      (r : RingBuffer A) (i : ℕ)
      → IsValid r
      → (((len r ≤ i) × (offset r i ≡ none))
          ⊎ ((i < len r)
              × ((p : ℕ) × (offset r i ≡ some p)
                  × (p < length r.ring)
                  × (get_or r.ring p z ≡ get_or (contents z r) i z))))
        × (front r ≡ offset r 0)
        × (back r ≡ offset r (len r - 1))
  unfolding offset front back
  offset_lem r i v = (
    elim (dec_lt i (len r)) [
      | no far ↦ inl (omega arith, ground arith)
      | yes h ↦
          let (p, q) = in_ring h in
          inr (
            h,
            (
              place (length r.ring) r.head_pos i,
              ground (arith, place-mod (length r.ring) r.head_pos i, is_empty-len r v, len-le r v),
              q,
              sym (get_or-tabulate _ (len r) i z h),
            ),
          )
    ],
    ground
        (arith, is_empty-len r v, len-le r v, v.in_range, place-mod (length r.ring) r.head_pos 0),
    ground arith,
  )
    where
      in_ring :
          i < len r
          → (r.head_pos < length r.ring) × (place (length r.ring) r.head_pos i < length r.ring)
      in_ring h = ground (arith, len-le r v, v.in_range)

  -- `Init` and `Clear` give a valid ring that holds nothing.
  pub init_lem : (size : ℕ) → IsValid (init z size) × (contents z (init z size) ≡ [])
  unfolding init len
  init_lem size =
      let e = length-replicate size z in
      (record { in_range = ground arith; full_meets = λ h. cc }, refl)

  pub clear_lem : (r : RingBuffer A) → IsValid (clear z r) × (contents z (clear z r) ≡ [])
  unfolding clear len
  clear_lem r = (record { in_range = ground arith; full_meets = λ h. cc }, refl)
