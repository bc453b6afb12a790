-- ===== src/Files/ChunkSet/Tests.antt =====
-- A set of eleven chunks.
use open_air.Prelude.{
  ℕ, ◌≡◌, refl, true, false, [], ◌∷◌, ◌++◌, replicate, ltb, ◌==◌, ◌&&◌, if◌then◌else◌, some,
  bytes_eq,
}
use open_air.Files.ChunkSet.{ChunkSet, has, mark, list, list_from, load}
use open_air.Files.ChunkSet.Marks.{has-mark}

abbrev eleven : ChunkSet
eleven = record { bits = 0 ∷ 4 ∷ []; count = 1; n = 11; hdr = replicate 56 0; dirty = false }

list_test : list (mark eleven 3) ≡ 3 ∷ 10 ∷ []
unfolding list mark
list_test = refl

reload_test : (load eleven (some (replicate 56 0 ++ (9 ∷ 0 ∷ [])))).count ≡ 2
unfolding load list_from bytes_eq
reload_test = refl

abbrev nine : ℕ
nine = 9

marked_bit_test :
    has (mark eleven 9) 9 ≡ (if (nine == 9) && ltb nine 11 then true else has eleven 9)
marked_bit_test = has-mark eleven 9 9 refl
