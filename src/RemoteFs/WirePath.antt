-- ===== src/RemoteFs/WirePath.antt =====
-- internal/caps/remotefs/path.go: the paths that a remote peer asks for. The checks of a path and of
-- its components are those of internal/caps/files, written out again there.
pub mod Safe
mod Tests
use open_air.Prelude.{
  ℕ, Bool, true, false, ◌&&◌, ◌||◌, List, [], ◌∷◌, ◌==◌, if◌then◌else◌, length, Bytes, bytes_eq,
  Result, ok, err, Option, none, some,
}
use open_air.Files.Path.{PathError, empty, backslash, nul, contains, split, bad_components}

-- `strings.Trim(p, "/")`
unfoldable pub trim_left : Bytes → Bytes
trim_left [] = []
trim_left (c ∷ p) = let rest = trim_left p in if c == 47 then rest else c ∷ p

unfoldable pub trim_right : Bytes → Bytes
trim_right [] = []
trim_right (c ∷ p) = let rest = trim_right p in if c == 47 && length rest == 0 then [] else c ∷ rest

abbrev pub clean_wire_path : Bytes → Bytes
clean_wire_path p = trim_right (trim_left p)

unfoldable pub is_root_path : Bytes → Bool
is_root_path p = length (clean_wire_path p) == 0 || bytes_eq (clean_wire_path p) (46 ∷ [])

-- `safeWirePath` after the trimming.
unfoldable pub checked_path : Bytes → Result PathError Bytes
checked_path rel =
    if length rel == 0
    then err empty
    else if contains rel 92
    then err backslash
    else if contains rel 0
    then err nul
    else elim (bad_components (split rel).0 (split rel).1) [ some e ↦ err e | none ↦ ok rel ]

unfoldable pub safe_wire_path : Bytes → Result PathError Bytes
safe_wire_path p = checked_path (clean_wire_path p)
