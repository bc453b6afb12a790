-- ===== src/Files/Plan/Layout.antt =====
-- Where `NewPlan` puts the files, in arithmetic that does not wrap.
use open_air.Prelude.{
  ℕ, ◌+◌, ◌*◌, ◌/◌, ◌^◌, ◌≤◌, ◌<◌, ◌≡◌, refl, ap, ◌∙◌, ◌⊎◌, inl, inr, Bool-cases, none, List, [],
  ◌∷◌, ◌++◌, ◌==◌, arith, ok, err, ltb, ◌||◌,
}
use open_air.Files.Plan.{
  Plan, PlanFile, chunks_of, add_file, add_files, empty_plan, new_plan, max_chunk_size, bad_plan,
}
use native.Mathlib.Nat.{div-add-mod}
use mathlib.Core.List.{append-nil, append_assoc}

pub chunks_of-le : (cs sz : ℕ) → 0 < cs → chunks_of cs sz ≤ sz
chunks_of-le cs sz h =
    let q : sz / cs ≤ cs * (sz / cs) = grind arith in ground (arith, q, div-add-mod sz cs)

abbrev pub total_of : List ℕ → ℕ
total_of [] = 0
total_of (sz ∷ sizes) = sz + total_of sizes

module _ (cs : ℕ) where
  abbrev pub count_of : List ℕ → ℕ
  count_of [] = 0
  count_of (sz ∷ sizes) = chunks_of cs sz + count_of sizes

  -- The files in offer order, the first at byte `st` and chunk `fc`.
  abbrev pub lay : ℕ → ℕ → List ℕ → List PlanFile
  lay st fc [] = []
  lay st fc (sz ∷ sizes) =
      record { start = st; size = sz; first_chunk = fc; chunks = chunks_of cs sz }
      ∷ lay (st + sz) (fc + chunks_of cs sz) sizes

  pub count_of-le : 0 < cs → (sizes : List ℕ) → count_of sizes ≤ total_of sizes
  count_of-le h [] = omega arith
  count_of-le h (sz ∷ sizes) = omega (arith, chunks_of-le cs sz h, count_of-le h sizes)

  abbrev pub laid : Plan → List ℕ → Plan
  laid p sizes = record p {
    files = p.files ++ lay p.total p.count sizes;
    total = p.total + total_of sizes;
    count = p.count + count_of sizes;
  }

  abbrev added : Plan → ℕ → Plan
  added p sz = record p {
    files =
        p.files
        ++ ((record { start = p.total; size = sz; first_chunk = p.count; chunks = chunks_of cs sz })
            ∷ []);
    total = p.total + sz;
    count = p.count + chunks_of cs sz;
  }

  add_file-eq-added :
      0 < cs
      → (p : Plan) (sz : ℕ) → p.chunk_size ≡ cs
      → p.total + sz < 2 ^ 64
      → p.count ≤ p.total
      → add_file p sz ≡ added p sz
  unfolding add_file
  add_file-eq-added h p sz e fits le = let n = chunks_of-le cs sz h in rw e (ground (arith, n))

  laid-added : (p : Plan) (sz : ℕ) (sizes : List ℕ) → laid (added p sz) sizes ≡ laid p (sz ∷ sizes)
  laid-added p sz sizes = ground (
    arith,
    append_assoc p.files
        ((record { start = p.total; size = sz; first_chunk = p.count; chunks = chunks_of cs sz })
          ∷ [])
        (lay (p.total + sz) (p.count + chunks_of cs sz) sizes),
  )

  add_files-eq-laid :
      0 < cs
      → (p : Plan) (sizes : List ℕ) → p.chunk_size ≡ cs
      → p.total + total_of sizes < 2 ^ 64
      → p.count ≤ p.total
      → add_files p sizes ≡ laid p sizes
  unfolding add_files
  add_files-eq-laid h p [] e fits le = ground (arith, append-nil p.files)
  add_files-eq-laid h p (sz ∷ sizes) e fits le = rw (add_file-eq-added h p sz e (omega arith) le) (
      add_files-eq-laid h (added p sz) sizes e (omega arith) (omega (arith, chunks_of-le cs sz h))
      ∙ laid-added p sz sizes)

-- The plan that `NewPlan` makes of files whose sizes add up to a uint64.
pub record IsPlanOf (p : Plan) (cs : ℕ) (sizes : List ℕ) : Type 0 where
  pub positive : 0 < cs
  pub chunk_cap : cs ≤ max_chunk_size
  pub fits : total_of sizes < 2 ^ 64
  pub same_chunk_size : p.chunk_size ≡ cs
  pub laid_out : p.files ≡ lay cs 0 0 sizes
  pub sum : p.total ≡ total_of sizes
  pub chunk_sum : p.count ≡ count_of cs sizes

-- `NewPlan` refuses a chunk size of zero or over the cap. Otherwise, if the sizes add up to a
-- uint64, it lays the files end to end, in bytes and in chunks: each starts where the one before it
-- ended, and takes its size divided by the chunk size, rounded up.
pub new_plan_lem :
    (sizes : List ℕ) (cs : ℕ)
    → total_of sizes < 2 ^ 64
    → (((cs ≡ 0) ⊎ (max_chunk_size < cs)) × (new_plan sizes cs ≡ err bad_plan))
      ⊎ ((0 < cs)
          × (cs ≤ max_chunk_size)
          × ((p : Plan) × (new_plan sizes cs ≡ ok p)
              × IsPlanOf p cs sizes
              × (p.skip ≡ none)
              × (p.next ≡ 0)))
unfolding new_plan
new_plan_lem sizes cs fits = elim (Bool-cases (cs == 0 || ltb max_chunk_size cs)) [
  | inl bad ↦ inl (ground arith, rw bad)
  | inr fine ↦
      let h : 0 < cs = ground arith in
      inr (
        h,
        ground arith,
        (
          laid cs (empty_plan cs) sizes,
          rw fine (
              ap (λ x. ok (x))
                (add_files-eq-laid cs h (empty_plan cs) sizes refl (omega arith) (omega arith))),
          record {
            positive = h;
            chunk_cap = ground arith;
            fits = fits;
            same_chunk_size = refl;
            laid_out = refl;
            sum = omega arith;
            chunk_sum = omega arith;
          },
          refl,
          refl,
        ),
      )
]
