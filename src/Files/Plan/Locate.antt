-- ===== src/Files/Plan/Locate.antt =====
-- `Locate` against `Chunk`: a frame is accepted exactly if it is a chunk of the plan.
use open_air.Prelude.{
  ℕ, ◌+◌, ◌-◌, ◌*◌, ◌/◌, ◌%◌, ◌^◌, ◌≤◌, ◌<◌, ◌≡◌, ◌≢◌, ◌↔◌, refl, sym, ap, ◌∙◌, subst, inl, inr,
  List, some, true, false, dec_lt, ℕ_discrete, ◌==◌, ◌||◌, not, ltb, leb, if◌then◌else◌, length,
  arith, ok, err, guarded_ok, ok_injective,
}
use open_air.Prelude.Words.{add64, sub64}
use open_air.Files.Plan.{
  Plan, Chunk, file_at, chunk_in, chunk, locate_in, locate, bad_plan, chunk_too_large,
}
use open_air.Files.Plan.Layout.{count_of-le, IsPlanOf}
use open_air.Files.Plan.Chunks.{IsChunkOf, chunk_owner, chunk_in-IsChunkOf, chunk_lem}
use open_air.Files.Plan.Offsets.{
  mul-mod_self, mul-div_self, aligned, div-lt-chunks_of, laid_out-IsFile, between-IsOwner,
  file_of_offset-eq, holder,
}

module _ (p : Plan) (cs : ℕ) (sizes : List ℕ) (v : IsPlanOf p cs sizes) where
  -- `locate` where the file at `k` holds the offset.
  locate_at :
      (o size k : ℕ)
      → k < length p.files
      → (file_at p k).start ≤ o
      → o < (file_at p k).start + (file_at p k).size
      → locate p o size
        ≡ (if size == 0 || ltb p.chunk_size size then err chunk_too_large else locate_in p o size k)
  unfolding locate
  locate_at o size k q lo hi =
      let inside : leb p.total o ≡ false =
        ground (arith, (laid_out-IsFile p cs sizes v k q).bytes_within, v.sum) in
      rw inside (
        ap
          (λ f.
            if size == 0 || ltb p.chunk_size size
            then err chunk_too_large
            else locate_in p o size f)
          (file_of_offset-eq p cs sizes v o k q lo hi))

  -- `locate_in` at a file, where the offset is a whole number of chunks from its start.
  locate_in-chunk :
      (o size k m : ℕ) (c : Chunk)
      → k < length p.files
      → (file_at p k).start + m * cs ≡ o
      → o < 2 ^ 64
      → (file_at p k).first_chunk + m < 2 ^ 64
      → chunk p ((file_at p k).first_chunk + m) ≡ some c
      → locate_in p o size k ≡ (if not (c.size == size) then err bad_plan else ok c)
  unfolding locate_in
  locate_in-chunk o size k m c q e small below e' =
      let a : sub64 o (file_at p k).start ≡ m * cs = omega arith in
      let listed : leb (length p.files) k ≡ false = ground (arith, q) in
      let d : sub64 o (file_at p k).start % p.chunk_size ≡ 0 =
        rw (a, v.same_chunk_size) (mul-mod_self m cs v.positive) in
      let n : add64 (file_at p k).first_chunk (sub64 o (file_at p k).start / p.chunk_size)
          ≡ (file_at p k).first_chunk + m =
        rw (a, v.same_chunk_size, mul-div_self m cs v.positive) (omega arith) in
      rw (listed, d, n, e') refl

  counted :
      (k m : ℕ)
      → k < length p.files
      → (file_at p k).first_chunk + m < p.count + 1
      → (file_at p k).first_chunk + m < 2 ^ 64
  counted k m q lt = omega (arith, v.chunk_sum, v.fits, count_of-le cs v.positive sizes)

  accepts :
      (i : ℕ) (c : Chunk)
      → i < p.count
      → chunk p i ≡ some c
      → IsChunkOf p i c
      → locate p c.offset c.size ≡ ok c
  accepts i c q e w =
      let k = c.file_index in
      let (lo, off) = w.counted in
      let m = i - (file_at p k).first_chunk in
      let i_eq : (file_at p k).first_chunk + m ≡ i = omega arith in
      let off' : c.file_offset ≡ m * cs = rw (← v.same_chunk_size) off in
      let st : (file_at p k).start + m * cs ≡ c.offset = rw (← off') (sym w.placed) in
      let fits : p.total < 2 ^ 64 = rw v.sum v.fits in
      let e' =
        locate_in-chunk c.offset c.size k m c w.in_a_file st
          (omega (arith, w.placed, w.within, w.in_range, fits, w.nonempty))
          (counted k m w.in_a_file (omega arith)) (rw i_eq e) in
      let z : (c.size == 0 || ltb p.chunk_size c.size) ≡ false =
        ground (arith, w.nonempty, w.sized) in
      let s : (c.size == c.size) ≡ true = ground arith in
      locate_at c.offset c.size k w.in_a_file (omega (arith, w.placed))
        (omega (arith, w.placed, w.within, w.nonempty))
      ∙ rw z (e' ∙ rw s refl)

  locate_in_astray :
      (o size k : ℕ)
      → k < length p.files
      → (file_at p k).start ≤ o
      → o < 2 ^ 64
      → (o - (file_at p k).start) % cs ≢ 0
      → locate_in p o size k ≡ err bad_plan
  unfolding locate_in
  locate_in_astray o size k q lo small ne =
      let a : sub64 o (file_at p k).start ≡ o - (file_at p k).start = omega arith in
      let listed : leb (length p.files) k ≡ false = ground (arith, q) in
      let d : (sub64 o (file_at p k).start % p.chunk_size == 0) ≡ false =
        rw (a, v.same_chunk_size) (ground arith) in
      rw (listed, d) refl

  placed_at :
      (m : ℕ) (c : Chunk)
      → IsChunkOf p ((file_at p c.file_index).first_chunk + m) c
      → c.offset ≡ (file_at p c.file_index).start + m * cs
  placed_at m c d =
      let f = (file_at p c.file_index).first_chunk in
      let n : f + m - f ≡ m = omega arith in
      let off : c.file_offset ≡ m * cs = d.counted.1 ∙ rw (n, v.same_chunk_size) refl in
      rw (← off) d.placed

  sound_at :
      (o size k m : ℕ) (c : Chunk)
      → k < length p.files
      → (file_at p k).start + m * cs ≡ o
      → o < 2 ^ 64
      → m < (file_at p k).chunks
      → locate_in p o size k ≡ ok c
      → (chunk p c.index ≡ some c) × (c.offset ≡ o) × (c.size ≡ size)
  unfolding chunk_in
  sound_at o size k m c q e small lt found =
      let f = laid_out-IsFile p cs sizes v k q in
      let i = (file_at p k).first_chunk + m in
      let below : i < p.count = omega (arith, f.chunks_within, v.chunk_sum, lt) in
      let w = between-IsOwner p cs sizes v i k q (omega arith) (omega arith) in
      let e' = chunk_owner p cs sizes v i k below w in
      let d = chunk_in-IsChunkOf p cs sizes v i k below w f in
      let r =
        sym (locate_in-chunk o size k m (chunk_in p i k) q e small (counted k m q (omega arith)) e')
        ∙ found in
      let (fits, same) =
        guarded_ok (not ((chunk_in p i k).size == size)) bad_plan (ok (chunk_in p i k)) r in
      let same' = ok_injective same in
      let place : (chunk_in p i k).offset ≡ o = placed_at m (chunk_in p i k) d ∙ e in
      let sized : (chunk_in p i k).size ≡ size = ground arith in
      subst (λ x. (chunk p x.index ≡ some x) × (x.offset ≡ o) × (x.size ≡ size)) same'
        (e', place, sized)

  outside :
      (o size : ℕ)
      → ¬ (o < p.total)
      → locate p o size
        ≡ (if size == 0 || ltb p.chunk_size size then err chunk_too_large else err bad_plan)
  unfolding locate
  outside o size q = ground arith

  sound :
      (o size : ℕ) (c : Chunk)
      → locate p o size ≡ ok c
      → (chunk p c.index ≡ some c) × (c.offset ≡ o) × (c.size ≡ size)
  sound o size c e = elim (dec_lt o p.total) [
    | no q ↦ absurd (grind (arith, outside o size q, e))
    | yes q ↦
        let (k, listed, lo, hi) = holder p cs sizes v o q in
        let fits : o < 2 ^ 64 = omega (arith, v.sum, v.fits) in
        let r =
          (guarded_ok (size == 0 || ltb p.chunk_size size) chunk_too_large (locate_in p o size k)
            (sym (locate_at o size k listed lo hi) ∙ e)).1 in
        elim (ℕ_discrete ((o - (file_at p k).start) % cs) 0) [
          | no ne ↦ absurd (grind (arith, locate_in_astray o size k listed lo fits ne, r))
          | yes whole ↦
              sound_at o size k ((o - (file_at p k).start) / cs) c listed
                (omega (arith, aligned (o - (file_at p k).start) cs whole)) fits
                (rw (laid_out-IsFile p cs sizes v k listed).chunked (
                  div-lt-chunks_of (o - (file_at p k).start) cs (file_at p k).size v.positive
                    (omega arith) whole))
                r
        ]
  ]

  -- On a plan as `NewPlan` lays it out for a chunk size that it takes and for sizes that add up to less
  -- than 2 ^ 64, `Locate` accepts a frame exactly if it is a chunk of the plan: its offset and size are
  -- those that `Chunk` gives for the index it returns. `NewPlan` does not check the sum.
  pub locate_iff :
      (o size : ℕ) (c : Chunk)
      → (locate p o size ≡ ok c) ↔ ((chunk p c.index ≡ some c) × (c.offset ≡ o) × (c.size ≡ size))
  locate_iff o size c = (λ e. sound o size c e, λ (e, at_o, at_size). back e at_o at_size)
    where
      back : chunk p c.index ≡ some c → c.offset ≡ o → c.size ≡ size → locate p o size ≡ ok c
      back e at_o at_size = elim (chunk_lem p cs sizes v c.index) [
        | inl (q, e') ↦ absurd (grind (arith, e, e'))
        | inr (q, (c', e', w)) ↦
            let same : c' ≡ c = cc in
            rw (← at_o, ← at_size) (accepts c.index c q e (subst (IsChunkOf p c.index) same w))
      ]
