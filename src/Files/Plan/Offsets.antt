-- ===== src/Files/Plan/Offsets.antt =====
-- Which file of the plan holds a byte of the concatenation, and which chunk of the file.
use open_air.Prelude.{
  ℕ, zero, suc, ◌+◌, ◌*◌, ◌/◌, ◌%◌, ◌≤◌, ◌<◌, ◌≡◌, sym, ap, ◌∙◌, subst, List, [], ◌∷◌, dec_lt, ◌==◌,
  ltb, length, arith,
}
use open_air.Prelude.Search.{search-eq}
use open_air.Prelude.Words.{add64}
use open_air.Files.Plan.{Plan, chunks_of, file_at, step_over, file_of_offset}
use open_air.Files.Plan.Layout.{lay, total_of, IsPlanOf}
use open_air.Files.Plan.Owner.{at, IsFile, lay-IsFile, IsOwner}
use open_air.Files.Plan.Chunks.{step_over_stay}
use native.Mathlib.Nat.{div-add-mod}

-- Files lie one behind the other, in bytes and in chunks.
lay-sorted :
    (cs : ℕ) (h : 0 < cs) (st fc : ℕ) (sizes : List ℕ) (j k : ℕ)
    → j < k
    → k < length (lay cs st fc sizes)
    → ((at (lay cs st fc sizes) j).start + (at (lay cs st fc sizes) j).size
        ≤ (at (lay cs st fc sizes) k).start)
      × ((at (lay cs st fc sizes) j).first_chunk + (at (lay cs st fc sizes) j).chunks
          ≤ (at (lay cs st fc sizes) k).first_chunk)
lay-sorted cs h st fc [] j k p q = absurd (omega arith)
lay-sorted cs h st fc (sz ∷ sizes) j zero p q = absurd (omega arith)
lay-sorted cs h st fc (sz ∷ sizes) zero (suc k) p q =
    let f = lay-IsFile cs h (st + sz) (fc + chunks_of cs sz) sizes k (omega arith) in
    (f.after_start, f.after_first)
lay-sorted cs h st fc (sz ∷ sizes) (suc j) (suc k) p q =
    lay-sorted cs h (st + sz) (fc + chunks_of cs sz) sizes j k (omega arith) (omega arith)

-- Every byte of the concatenation is in a file.
byte_owner :
    (cs st fc : ℕ) (sizes : List ℕ) (o : ℕ)
    → st ≤ o
    → o < st + total_of sizes
    → (k : ℕ) × (k < length (lay cs st fc sizes))
      × ((at (lay cs st fc sizes) k).start ≤ o)
      × (o < (at (lay cs st fc sizes) k).start + (at (lay cs st fc sizes) k).size)
byte_owner cs st fc [] o lo hi = absurd (omega arith)
byte_owner cs st fc (sz ∷ sizes) o lo hi = elim (dec_lt o (st + sz)) [
  | yes here ↦ (0, omega arith, lo, here)
  | no there ↦
      let (k, a, b, c) =
        byte_owner cs (st + sz) (fc + chunks_of cs sz) sizes o (omega arith) (omega arith) in
      (suc k, omega arith, b, c)
]

-- Whole chunks: their number times the chunk size, and back.
pub mul-mod_self : (m cs : ℕ) → 0 < cs → (m * cs) % cs ≡ 0
mul-mod_self m cs h = grind arith

pub mul-div_self : (m cs : ℕ) → 0 < cs → (m * cs) / cs ≡ m
mul-div_self m cs h = grind arith

pub aligned : (o cs : ℕ) → o % cs ≡ 0 → o / cs * cs ≡ o
aligned o cs e = omega (arith, div-add-mod o cs)

pub div-lt-chunks_of : (o cs sz : ℕ) → 0 < cs → o < sz → o % cs ≡ 0 → o / cs < chunks_of cs sz
div-lt-chunks_of o cs sz h lt e =
    let a : o / cs * cs ≡ o = aligned o cs e in
    elim (dec_lt (o / cs) (sz / cs)) as (λ x. o / cs < chunks_of cs sz) [
      | yes q ↦ ground arith
      | no q ↦
          let b : sz / cs ≡ o / cs = grind arith in
          let c : sz / cs * cs ≤ o = rw (b) (omega (arith, a)) in
          let r : 0 < sz % cs = omega (arith, div-add-mod sz cs, c) in ground arith
    ]

module _ (p : Plan) (cs : ℕ) (sizes : List ℕ) (v : IsPlanOf p cs sizes) where
  pub laid_out-IsFile : (k : ℕ) → k < length p.files → IsFile cs v.positive 0 0 sizes (file_at p k)
  laid_out-IsFile k q =
      subst (λ fs. IsFile cs v.positive 0 0 sizes (at fs k)) (sym v.laid_out)
        (lay-IsFile cs v.positive 0 0 sizes k (rw (← v.laid_out) q))

  sorted :
      (j k : ℕ)
      → j < k
      → k < length p.files
      → ((file_at p j).start + (file_at p j).size ≤ (file_at p k).start)
        × ((file_at p j).first_chunk + (file_at p j).chunks ≤ (file_at p k).first_chunk)
  sorted j k p' q = rw v.laid_out (lay-sorted cs v.positive 0 0 sizes j k p' (rw (← v.laid_out) q))

  pub between-IsOwner :
      (i k : ℕ)
      → k < length p.files
      → (file_at p k).first_chunk ≤ i
      → i < (file_at p k).first_chunk + (file_at p k).chunks
      → IsOwner cs v.positive p.files i k
  between-IsOwner i k q lo hi = record {
    listed = q;
    starts = lo;
    ends = hi;
    left = λ j r. ground (arith, sorted j k);
    right = λ j r s. ground (arith, sorted k j);
  }

  pub file_of_offset-eq :
      (o k : ℕ)
      → k < length p.files
      → (file_at p k).start ≤ o
      → o < (file_at p k).start + (file_at p k).size
      → file_of_offset p o ≡ k
  unfolding file_of_offset
  file_of_offset-eq o k q lo hi =
      let end : (j : ℕ)
          → j < length p.files
          → add64 (file_at p j).start (file_at p j).size
            ≡ (file_at p j).start + (file_at p j).size =
        λ j r. omega (arith, (laid_out-IsFile j r).bytes_within, v.fits) in
      let behind : (j : ℕ)
          → k ≤ j
          → j < length p.files
          → o < (file_at p j).start + (file_at p j).size =
        λ j r r'. elim (dec_lt k j) [
          | yes s ↦ omega (arith, (sorted k j s r').0)
          | no s ↦ let e : j ≡ k = omega arith in rw e hi
        ] in
      let e =
        search-eq (length p.files) (λ j. ltb o (add64 (file_at p j).start (file_at p j).size)) k
          (omega arith) (λ j r. ground (arith, end j, sorted j k r q))
          (λ j r r'. ground (arith, end j r', behind j r r')) in
      ap (step_over (λ f. f.size == 0) p.files (length p.files)) e
      ∙ step_over_stay (λ f. f.size == 0) p.files (length p.files) k (ground arith)

  -- The file that holds a byte.
  pub holder :
      (o : ℕ)
      → o < p.total
      → (k : ℕ) × (k < length p.files)
        × ((file_at p k).start ≤ o)
        × (o < (file_at p k).start + (file_at p k).size)
  holder o q = rw v.laid_out (byte_owner cs 0 0 sizes o (omega arith) (omega (arith, v.sum)))
