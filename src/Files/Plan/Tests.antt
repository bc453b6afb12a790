-- ===== src/Files/Plan/Tests.antt =====
-- Plans on concrete files.
use open_air.Prelude.{ℕ, ◌≤◌, ◌<◌, ◌≡◌, refl, ◌↔◌, ◌⊎◌, List, [], ◌∷◌, none, some, ok, err, arith}
use open_air.Prelude.Search.{search}
use open_air.Files.Plan.{
  Plan, Chunk, bad_plan, new_plan, chunk, locate, set_have, claim, remaining, max_chunk_size,
  bad_plan,
}
use open_air.Files.Plan.Layout.{IsPlanOf, new_plan_lem}
use open_air.Files.Plan.Chunks.{IsChunkOf, chunk_lem}
use open_air.Files.Plan.Locate.{locate_iff}
use open_air.Files.Plan.Claim.{FirstFree, claim-FirstFree}

abbrev sizes : List ℕ
sizes = 5 ∷ 0 ∷ 7 ∷ []

abbrev three_files : Plan
three_files = record {
  chunk_size = 4;
  total = 12;
  count = 4;
  files =
      (record { start = 0; size = 5; first_chunk = 0; chunks = 2 })
      ∷ (record { start = 5; size = 0; first_chunk = 2; chunks = 0 })
      ∷ (record { start = 5; size = 7; first_chunk = 2; chunks = 2 })
      ∷ [];
  skip = none;
  next = 0;
}

new_plan_test : new_plan sizes 4 ≡ ok three_files
unfolding new_plan
new_plan_test = refl

three_files-IsPlanOf : IsPlanOf three_files 4 sizes
three_files-IsPlanOf = record {
  positive = omega arith;
  chunk_cap = omega arith;
  fits = omega arith;
  same_chunk_size = refl;
  laid_out = refl;
  sum = refl;
  chunk_sum = refl;
}

-- The last chunk is the short one of the last file.
last_chunk_test :
    locate three_files 9 3
    ≡ ok (record { index = 3; offset = 9; size = 3; file_index = 2; file_offset = 4 })
unfolding locate search
last_chunk_test = refl

claim_test :
    claim (set_have three_files (0 ∷ 1 ∷ []))
    ≡ (record (set_have three_files (0 ∷ 1 ∷ [])) { next = 3 }, chunk three_files 2)
unfolding claim set_have search
claim_test = refl

remaining_test : remaining (set_have three_files (0 ∷ 3 ∷ [])) ≡ 5
unfolding remaining set_have search
remaining_test = refl

abbrev size_4 : ℕ
size_4 = 4

new_plan_lem_test :
    (((size_4 ≡ 0) ⊎ (max_chunk_size < size_4)) × (new_plan sizes size_4 ≡ err bad_plan))
    ⊎ ((0 < size_4)
        × (size_4 ≤ max_chunk_size)
        × ((p : Plan) × (new_plan sizes size_4 ≡ ok p)
            × IsPlanOf p size_4 sizes
            × (p.skip ≡ none)
            × (p.next ≡ 0)))
new_plan_lem_test = new_plan_lem sizes 4 (omega arith)

chunk_lem_test :
    ((4 ≤ 3) × (chunk three_files 3 ≡ none))
    ⊎ ((3 < 4) × ((c : Chunk) × (chunk three_files 3 ≡ some c) × IsChunkOf three_files 3 c))
chunk_lem_test = chunk_lem three_files 4 sizes three_files-IsPlanOf 3

abbrev third : Chunk
third = record { index = 2; offset = 5; size = 4; file_index = 2; file_offset = 0 }

locate_iff_example :
    (locate three_files 5 4 ≡ ok third)
    ↔ ((chunk three_files 2 ≡ some third) × (third.offset ≡ 5) × (third.size ≡ 4))
locate_iff_example = locate_iff three_files 4 sizes three_files-IsPlanOf 5 4 third

claim-FirstFree_test :
    FirstFree (set_have three_files (0 ∷ 2 ∷ [])) 0 (claim (set_have three_files (0 ∷ 2 ∷ [])))
unfolding set_have
claim-FirstFree_test =
    claim-FirstFree (set_have three_files (0 ∷ 2 ∷ [])) (omega arith) (omega arith)
