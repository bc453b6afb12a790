-- ===== src/Files/Plan/Owner.antt =====
-- The files of a plan that `NewPlan` laid out, and the one that owns a chunk.
use open_air.Prelude.{
  ℕ, zero, suc, ◌+◌, ◌*◌, ◌/◌, ◌%◌, ◌≤◌, ◌<◌, ◌≡◌, List, [], ◌∷◌, dec_lt, length, get_or, arith,
}
use open_air.Files.Plan.{PlanFile, chunks_of, no_file}
use open_air.Files.Plan.Layout.{lay, count_of, total_of}
use native.Mathlib.Nat.{div-add-mod}

abbrev pub at : List PlanFile → ℕ → PlanFile
at fs k = get_or fs k no_file

module _ (cs : ℕ) (h : 0 < cs) where
  -- What is known of a file wherever it lies.
  pub record IsFile (st fc : ℕ) (sizes : List ℕ) (f : PlanFile) : Type 0 where
    pub chunked : f.chunks ≡ chunks_of cs f.size
    pub bytes_within : f.start + f.size ≤ st + total_of sizes
    pub after_start : st ≤ f.start
    pub after_first : fc ≤ f.first_chunk
    pub chunks_within : f.first_chunk + f.chunks ≤ fc + count_of cs sizes

  pub lay-IsFile :
      (st fc : ℕ) (sizes : List ℕ) (k : ℕ)
      → k < length (lay cs st fc sizes)
      → IsFile st fc sizes (at (lay cs st fc sizes) k)
  lay-IsFile st fc [] k p = absurd (omega arith)
  lay-IsFile st fc (sz ∷ sizes) zero p = omega arith
  lay-IsFile st fc (sz ∷ sizes) (suc k) p =
      let i = lay-IsFile (st + sz) (fc + chunks_of cs sz) sizes k (omega arith) in
      record {
        chunked = i.chunked;
        bytes_within = omega arith;
        after_start = omega arith;
        after_first = omega arith;
        chunks_within = omega arith;
      }

  -- The file that owns chunk `i`: it begins at or before `i` and ends behind it, and so do no others
  -- on its left and right.
  pub record IsOwner (fs : List PlanFile) (i k : ℕ) : Type 0 where
    pub listed : k < length fs
    pub starts : (at fs k).first_chunk ≤ i
    pub ends : i < (at fs k).first_chunk + (at fs k).chunks
    pub left : (j : ℕ) → j < suc k → (at fs j).first_chunk ≤ i
    pub right : (j : ℕ) → suc k ≤ j → j < length fs → i < (at fs j).first_chunk

  pub owner :
      (st fc : ℕ) (sizes : List ℕ) (i : ℕ)
      → fc ≤ i
      → i < fc + count_of cs sizes
      → (k : ℕ) × IsOwner (lay cs st fc sizes) i k
  owner st fc [] i lo hi = absurd (omega arith)
  owner st fc (sz ∷ sizes) i lo hi = elim (dec_lt i (fc + chunks_of cs sz)) [
    | yes here ↦ (
      0,
      record {
        listed = omega arith;
        starts = lo;
        ends = here;
        left = first_only;
        right = behind here;
      },
    )
    | no there ↦
        let (k, o) = owner (st + sz) (fc + chunks_of cs sz) sizes i (omega arith) (omega arith) in
        (
          suc k,
          record {
            listed = omega (arith, o.listed);
            starts = o.starts;
            ends = o.ends;
            left = further o.left;
            right = further_right o.right;
          },
        )
  ]
    where
      fs : List PlanFile
      fs = lay cs st fc (sz ∷ sizes)

      rest : List PlanFile
      rest = lay cs (st + sz) (fc + chunks_of cs sz) sizes

      first_only : (j : ℕ) → j < 1 → (at fs j).first_chunk ≤ i
      first_only zero p = lo
      first_only (suc j) p = absurd (omega arith)

      behind :
          i < fc + chunks_of cs sz → (j : ℕ) → 1 ≤ j → j < length fs → i < (at fs j).first_chunk
      behind b zero p q = absurd (omega arith)
      behind b (suc j) p q =
          let f = lay-IsFile (st + sz) (fc + chunks_of cs sz) sizes j (omega arith) in
          omega (arith, f.after_first)

      further :
          {k : ℕ}
          → ((j : ℕ) → j < suc k → (at rest j).first_chunk ≤ i)
          → (j : ℕ) → j < suc (suc k)
          → (at fs j).first_chunk ≤ i
      further g zero p = lo
      further g (suc j) p = g j (omega arith)

      further_right :
          {k : ℕ}
          → ((j : ℕ) → suc k ≤ j → j < length rest → i < (at rest j).first_chunk)
          → (j : ℕ) → suc (suc k) ≤ j
          → j < length fs
          → i < (at fs j).first_chunk
      further_right g zero p q = absurd (omega arith)
      further_right g (suc j) p q = g j (omega arith) (omega arith)

  pub chunk_start_lt : (sz m : ℕ) → m < chunks_of cs sz → m * cs < sz
  chunk_start_lt sz m p = elim (dec_lt m (sz / cs)) [
    | yes q ↦
        let e : suc m * cs ≤ sz / cs * cs = grind arith in omega (arith, div-add-mod sz cs, e, h)
    | no q ↦
        let e : m ≡ sz / cs = ground arith in
        let r : 0 < sz % cs = ground arith in rw e (omega (arith, div-add-mod sz cs, r))
  ]
