-- ===== src/Files/ChunkSet.antt =====
-- internal/caps/files/state.go: the receiver's set of verified chunks, a bitmap that outlives a run.
-- The offer's hash, the name of the file and the writing of it are parameters or left out; what is
-- written and what is read are here. The lock makes each call one step.
pub mod Bits
pub mod Marks
mod Tests
use open_air.Prelude.{
  ℕ, zero, suc, ◌+◌, ◌-◌, ◌*◌, ◌/◌, ◌%◌, ◌^◌, Bool, true, false, not, ◌&&◌, ◌||◌, List, [], ◌∷◌,
  ◌++◌, Option, none, some, ltb, leb, ◌==◌, if◌then◌else◌, length, get_or, set, take, drop,
  replicate, Bytes, bytes_eq, put_le,
}
use open_air.Prelude.Words.{add64}

-- "OAPART", 0, 1
abbrev pub state_magic : Bytes
state_magic = 79 ∷ 65 ∷ 80 ∷ 65 ∷ 82 ∷ 84 ∷ 0 ∷ 1 ∷ []

abbrev pub state_header_size : ℕ
state_header_size = 8 + 8 + 8 + 32

pub record ChunkSet : Type 0 where
  pub bits : Bytes
  pub count : ℕ
  pub n : ℕ
  pub hdr : Bytes
  pub dirty : Bool

unfoldable pub new_chunk_set : ℕ → ℕ → Bytes → ChunkSet
new_chunk_set n chunk_size offer_hash = record {
  bits = replicate (add64 n 7 / 8) 0;
  count = 0;
  n = n;
  hdr = state_magic ++ (put_le 8 chunk_size ++ (put_le 8 n ++ offer_hash));
  dirty = false;
}

-- `b & (1 << k) != 0`
abbrev pub bit : ℕ → ℕ → Bool
bit b k = b / 2 ^ k % 2 == 1

abbrev pub bit_at : Bytes → ℕ → Bool
bit_at bits i = bit (get_or bits (i / 8) 0) (i % 8)

unfoldable pub has : ChunkSet → ℕ → Bool
has s i = if leb s.n i then false else bit_at s.bits i

-- A bit that is not set is set by adding its value. The new count is that of the result.
unfoldable pub mark : ChunkSet → ℕ → ChunkSet
mark s i =
    if ltb i s.n && not (bit_at s.bits i)
    then record s {
      bits = set s.bits (i / 8) (get_or s.bits (i / 8) 0 + 2 ^ (i % 8));
      count = add64 s.count 1;
      dirty = true;
    }
    else s

abbrev pub complete : ChunkSet → Bool
complete s = s.count == s.n

-- The indices from `i` on, `fuel` of them, whose bits are set.
unfoldable pub list_from : Bytes → ℕ → ℕ → List ℕ
list_from bits zero i = []
list_from bits (suc fuel) i =
    let rest = list_from bits fuel (i + 1) in if bit_at bits i then i ∷ rest else rest

pub list : ChunkSet → List ℕ
unfolding list_from
list s = if s.count == 0 then [] else list_from s.bits s.n 0

-- `load`, on what reading the file gave
unfoldable pub load : ChunkSet → Option Bytes → ChunkSet
unfolding list_from
load s none = s
load s (some b) =
    let body = drop state_header_size b in
    if ltb (length b) state_header_size
    then s
    else if not (bytes_eq (take state_header_size b) s.hdr)
    then s
    else if not (length body == length s.bits)
    then s
    else record s { bits = body; count = length (list_from body s.n 0) }

-- What `flush` writes, and the set once it has.
pub flush : ChunkSet → ChunkSet × Option Bytes
flush s = if not s.dirty then (s, none) else (record s { dirty = false }, some (s.hdr ++ s.bits))
