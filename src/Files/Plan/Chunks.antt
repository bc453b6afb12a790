-- ===== src/Files/Plan/Chunks.antt =====
-- `Chunk` on a plan that `NewPlan` laid out.
use open_air.Prelude.{
  ℕ, zero, suc, ◌+◌, ◌-◌, ◌*◌, ◌%◌, ◌^◌, ◌≤◌, ◌<◌, ◌≡◌, refl, sym, ap, subst, ◌∙◌, ◌⊎◌, inl, inr,
  List, none, some, Bool, false, dec_lt, ◌==◌, ltb, leb, if◌then◌else◌, length, min, arith,
}
use open_air.Prelude.Search.{search, search-eq}
use open_air.Prelude.Words.{add64, sub64, mul64}
use open_air.Files.Plan.{
  Plan, PlanFile, Chunk, max_chunk_size, file_at, step_over, chunk_in, chunk_from, chunk,
}
use open_air.Files.Plan.Layout.{count_of-le, IsPlanOf}
use open_air.Files.Plan.Owner.{at, IsFile, lay-IsFile, IsOwner, owner, chunk_start_lt}

pub step_over_stay :
    (empty : PlanFile → Bool) (fs : List PlanFile) (fuel fi : ℕ)
    → empty (at fs fi) ≡ false
    → step_over empty fs fuel fi ≡ fi
unfolding step_over
step_over_stay empty fs zero fi e = refl
step_over_stay empty fs (suc fuel) fi e = ground arith

-- What `Chunk` returns for index `i`: a piece of one file, at its place in the concatenation.
pub record IsChunkOf (p : Plan) (i : ℕ) (c : Chunk) : Type 0 where
  pub indexed : c.index ≡ i
  pub in_a_file : c.file_index < length p.files
  pub counted :
      ((file_at p c.file_index).first_chunk ≤ i)
      × (c.file_offset ≡ (i - (file_at p c.file_index).first_chunk) * p.chunk_size)
  pub placed : c.offset ≡ (file_at p c.file_index).start + c.file_offset
  pub sized : c.size ≡ min p.chunk_size ((file_at p c.file_index).size - c.file_offset)
  pub nonempty : 0 < c.size
  pub within : c.file_offset + c.size ≤ (file_at p c.file_index).size
  pub in_range : (file_at p c.file_index).start + (file_at p c.file_index).size ≤ p.total

-- The arithmetic of `Chunk` does not wrap.
piece :
    (cs i first start size : ℕ)
    → 0 < cs
    → cs ≤ max_chunk_size
    → first ≤ i
    → i < 2 ^ 64
    → (i - first) * cs < size
    → start + size < 2 ^ 64
    → let off = mul64 (sub64 i first) cs in
      let rem = sub64 size off in
      let sz = (if ltb rem cs then rem else cs) % 2 ^ 32 in
      (off ≡ (i - first) * cs)
      × (add64 start off ≡ start + off)
      × (sz ≡ min cs (size - off))
      × (0 < sz)
      × (off + sz ≤ size)
piece cs i first start size h small le hi lt fits =
    let e : sub64 i first ≡ i - first = omega arith in
    let off : mul64 (sub64 i first) cs ≡ (i - first) * cs = rw e (omega arith) in
    rw off (refl, omega arith, ground arith, ground arith, ground arith)

module _ (p : Plan) (cs : ℕ) (sizes : List ℕ) (v : IsPlanOf p cs sizes) where
  search_owner :
      (i k : ℕ)
      → IsOwner cs v.positive p.files i k
      → search (length p.files) (λ j. ltb i (file_at p j).first_chunk) ≡ suc k
  search_owner i k o =
      search-eq (length p.files) (λ j. ltb i (file_at p j).first_chunk) (suc k) o.listed
        (λ j q. ground (arith, o.left j)) (λ j q r. ground (arith, o.right j))

  chunk_from_owner :
      (i k : ℕ) → IsOwner cs v.positive p.files i k → chunk_from p i (suc k) ≡ some (chunk_in p i k)
  unfolding chunk_from
  chunk_from_owner i k o = ground (
    arith,
    o.listed,
    o.starts,
    o.ends,
    step_over_stay (λ f. f.chunks == 0) p.files (length p.files) k,
  )

  pub chunk_owner :
      (i k : ℕ)
      → i < p.count
      → IsOwner cs v.positive p.files i k
      → chunk p i ≡ some (chunk_in p i k)
  unfolding chunk
  chunk_owner i k q o =
      ap (λ n. if leb p.count i then none else chunk_from p i n) (search_owner i k o)
      ∙ ground (arith, chunk_from_owner i k o)

  pub chunk_in-IsChunkOf :
      (i k : ℕ)
      → i < p.count
      → IsOwner cs v.positive p.files i k
      → IsFile cs v.positive 0 0 sizes (file_at p k)
      → IsChunkOf p i (chunk_in p i k)
  unfolding chunk_in
  chunk_in-IsChunkOf i k q o f =
      let fo = file_at p k in
      let lt : (i - fo.first_chunk) * cs < fo.size =
        chunk_start_lt cs v.positive fo.size (i - fo.first_chunk)
          (ground (arith, o.starts, o.ends, f.chunked)) in
      let small : i < 2 ^ 64 =
        omega (arith, v.chunk_sum, v.fits, count_of-le cs v.positive sizes) in
      let (off, place, size, some_bytes, inside) =
        piece p.chunk_size i fo.first_chunk fo.start fo.size
          (omega (arith, v.positive, v.same_chunk_size))
          (omega (arith, v.chunk_cap, v.same_chunk_size)) o.starts small (rw v.same_chunk_size lt)
          (omega (arith, f.bytes_within, v.fits)) in
      record {
        indexed = refl;
        in_a_file = o.listed;
        counted = (o.starts, off);
        placed = place;
        sized = size;
        nonempty = some_bytes;
        within = inside;
        in_range = omega (arith, f.bytes_within, v.sum);
      }

  -- On a plan that `NewPlan` laid out, every index below `Count` has a chunk, and no other index has one: `Chunk` gives a non-empty piece
  -- of one file, whose bytes stand where the file's bytes stand in the concatenation, and which is as
  -- long as the chunk size unless the file ends before.
  pub chunk_lem :
      (i : ℕ)
      → ((p.count ≤ i) × (chunk p i ≡ none))
        ⊎ ((i < p.count) × ((c : Chunk) × (chunk p i ≡ some c) × IsChunkOf p i c))
  unfolding chunk
  chunk_lem i = elim (dec_lt i p.count) [
    | no q ↦ inl (omega arith, ground arith)
    | yes q ↦
        let (k, o) = owned i q in
        let f =
          subst (λ fs. IsFile cs v.positive 0 0 sizes (at fs k)) (sym v.laid_out)
            (lay-IsFile cs v.positive 0 0 sizes k (rw (← v.laid_out) o.listed)) in
        inr (q, (chunk_in p i k, chunk_owner i k q o, chunk_in-IsChunkOf i k q o f))
  ]
    where
      owned : (i : ℕ) → i < p.count → (k : ℕ) × IsOwner cs v.positive p.files i k
      owned i q =
          rw v.laid_out (owner cs v.positive 0 0 sizes i (omega arith) (omega (arith, v.chunk_sum)))
