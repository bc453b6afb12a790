-- ===== src/Files/Plan.antt =====
-- internal/caps/files/plan.go. The fields of `Plan` are its own; the atomic counter is the field
-- `next`, which one claim after another advances. All numbers are uint64s and wrap.
pub mod Layout
pub mod Owner
pub mod Chunks
pub mod Offsets
pub mod Locate
pub mod Claim
pub mod Tests
use open_air.Prelude.{
  ℕ, zero, suc, ◌+◌, ◌-◌, ◌*◌, ◌/◌, ◌%◌, ◌^◌, Bool, true, false, not, ◌&&◌, ◌||◌, List, [], ◌∷◌,
  ◌++◌, Option, none, some, ltb, leb, ◌==◌, if◌then◌else◌, length, get_or, set, replicate, Result,
  ok, err,
}
use open_air.Prelude.Search.{search}
use open_air.Prelude.Words.{add64, sub64, mul64}

-- framing.go
abbrev pub max_chunk_size : ℕ
max_chunk_size = 16 * 2 ^ 20

pub record Chunk : Type 0 where
  pub index : ℕ
  pub offset : ℕ
  pub size : ℕ
  pub file_index : ℕ
  pub file_offset : ℕ

pub record PlanFile : Type 0 where
  pub start : ℕ
  pub size : ℕ
  pub first_chunk : ℕ
  pub chunks : ℕ

pub record Plan : Type 0 where
  pub chunk_size : ℕ
  pub total : ℕ
  pub count : ℕ
  pub files : List PlanFile
  pub skip : Option (List Bool)
  pub next : ℕ

pub data PlanError : Type 0 where
  bad_plan chunk_too_large : PlanError

-- How many chunks a file takes.
abbrev pub chunks_of : ℕ → ℕ → ℕ
chunks_of chunk_size sz = if sz % chunk_size == 0 then sz / chunk_size else sz / chunk_size + 1

-- One round of `NewPlan`'s loop.
pub add_file : Plan → ℕ → Plan
add_file p sz =
    let n = chunks_of p.chunk_size sz in
    record p {
      files =
          p.files
          ++ ((record { start = p.total; size = sz; first_chunk = p.count; chunks = n }) ∷ []);
      total = add64 p.total sz;
      count = add64 p.count n;
    }

pub add_files : Plan → List ℕ → Plan
add_files p [] = p
add_files p (sz ∷ sizes) = add_files (add_file p sz) sizes

abbrev pub empty_plan : ℕ → Plan
empty_plan chunk_size = record {
  chunk_size = chunk_size;
  total = 0;
  count = 0;
  files = [];
  skip = none;
  next = 0;
}

pub new_plan : List ℕ → ℕ → Result PlanError Plan
unfolding add_files add_file
new_plan sizes chunk_size =
    if chunk_size == 0 || ltb max_chunk_size chunk_size
    then err bad_plan
    else ok (add_files (empty_plan chunk_size) sizes)

abbrev pub no_file : PlanFile
no_file = record { start = 0; size = 0; first_chunk = 0; chunks = 0 }

abbrev pub file_at : Plan → ℕ → PlanFile
file_at p k = get_or p.files k no_file

-- `for fi < len(p.files) && empty(p.files[fi]) { fi++ }`, with a round for each file left.
pub step_over : (PlanFile → Bool) → List PlanFile → ℕ → ℕ → ℕ
step_over empty files zero fi = fi
step_over empty files (suc fuel) fi =
    let rest = step_over empty files fuel (fi + 1) in
    if ltb fi (length files) && empty (get_or files fi no_file) then rest else fi

-- The chunk of index `i` in the file at `fi`.
pub chunk_in : Plan → ℕ → ℕ → Chunk
chunk_in p i fi =
    let f = file_at p fi in
    let file_off = mul64 (sub64 i f.first_chunk) p.chunk_size in
    let rem = sub64 f.size file_off in
    let size = if ltb rem p.chunk_size then rem else p.chunk_size in
    record {
      index = i;
      offset = add64 f.start file_off;
      size = size % 2 ^ 32;
      file_index = fi;
      file_offset = file_off;
    }

-- `sort.Search(…) - 1` is -1 where the search finds 0; then no file is found.
pub chunk_from : Plan → ℕ → ℕ → Option Chunk
unfolding chunk_in step_over
chunk_from p i zero = none
chunk_from p i (suc fi) =
    let fi' = step_over (λ f. f.chunks == 0) p.files (length p.files) fi in
    if leb (length p.files) fi' then none else some (chunk_in p i fi')

pub chunk : Plan → ℕ → Option Chunk
unfolding chunk_from
chunk p i =
    if leb p.count i
    then none
    else chunk_from p i (search (length p.files) (λ k. ltb i (file_at p k).first_chunk))

-- The file that a byte of the concatenation falls in.
pub file_of_offset : Plan → ℕ → ℕ
unfolding step_over
file_of_offset p offset =
    step_over (λ f. f.size == 0) p.files (length p.files)
      (search (length p.files) (λ k. ltb offset (add64 (file_at p k).start (file_at p k).size)))

-- `Locate` once the file is known.
pub locate_in : Plan → ℕ → ℕ → ℕ → Result PlanError Chunk
unfolding chunk
locate_in p offset size fi =
    let f = file_at p fi in
    let file_off = sub64 offset f.start in
    if leb (length p.files) fi
    then err bad_plan
    else if not (file_off % p.chunk_size == 0)
    then err bad_plan
    else elim (chunk p (add64 f.first_chunk (file_off / p.chunk_size))) [
      | none ↦ err bad_plan
      | some c ↦ if not (c.size == size) then err bad_plan else ok c
    ]

pub locate : Plan → ℕ → ℕ → Result PlanError Chunk
unfolding locate_in file_of_offset
locate p offset size =
    if size == 0 || ltb p.chunk_size size
    then err chunk_too_large
    else if leb p.total offset
    then err bad_plan
    else locate_in p offset size (file_of_offset p offset)

mark_have : ℕ → List Bool → List ℕ → List Bool
mark_have count skip [] = skip
mark_have count skip (i ∷ have) =
    mark_have count (if ltb i count then set skip i true else skip) have

-- `p.skip`, made on the first call that has something to mark.
abbrev skip_or_fresh : Plan → List Bool
skip_or_fresh p = elim p.skip [ none ↦ replicate p.count false | some skip ↦ skip ]

pub set_have : Plan → List ℕ → Plan
unfolding mark_have
set_have p [] = p
set_have p (i ∷ have) = record p { skip = some (mark_have p.count (skip_or_fresh p) (i ∷ have)) }

abbrev pub skipped : Plan → ℕ → Bool
skipped p i = elim p.skip [ none ↦ false | some skip ↦ get_or skip i false ]

-- `Claim`: the loop ends at the latest when `next` passes the last chunk. The plan comes back with
-- its counter.
pub claim_loop : ℕ → Plan → Plan × Option Chunk
unfolding chunk
claim_loop zero p = (p, none)
claim_loop (suc fuel) p =
    let i = p.next in
    let p' = record p { next = add64 p.next 1 } in
    let again = claim_loop fuel p' in
    if leb p.count i then (p', none) else if skipped p i then again else (p', chunk p i)

pub claim : Plan → Plan × Option Chunk
unfolding claim_loop
claim p = claim_loop (p.count - p.next + 1) p

abbrev size_or_zero : Option Chunk → ℕ
size_or_zero none = 0
size_or_zero (some c) = c.size

remaining_from : Plan → ℕ → List Bool → ℕ
unfolding chunk
remaining_from p i [] = 0
remaining_from p i (b ∷ bs) =
    let rest = remaining_from p (i + 1) bs in
    if b then rest else add64 (size_or_zero (chunk p i)) rest

pub remaining : Plan → ℕ
unfolding remaining_from
remaining p = elim p.skip [ none ↦ p.total | some skip ↦ remaining_from p 0 skip ]
