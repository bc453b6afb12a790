-- ===== src/Files/Path.antt =====
-- internal/caps/files/path.go: which offered paths may be written below the destination. The second
-- check of `resolve`, on what the platform's path functions make of it, is not modelled.
pub mod Safe
mod Tests
use open_air.Prelude.{
  ℕ, Bool, true, false, not, ◌&&◌, ◌||◌, List, [], ◌∷◌, ◌++◌, ◌==◌, if◌then◌else◌, length, Bytes,
  bytes_eq, Result, ok, err, Option, none, some,
}

pub data PathError : Type 0 where
  empty backslash nul absolute empty_component dots volume_separator : PathError

-- `strings.ContainsRune`
unfoldable pub contains : Bytes → ℕ → Bool
contains [] c = false
contains (x ∷ xs) c = let rest = contains xs c in if x == c then true else rest

-- `strings.Split(p, "/")`: the first component and the others.
unfoldable pub split : Bytes → Bytes × List Bytes
split [] = ([], [])
split (c ∷ p) = let (e, es) = split p in if c == 47 then ([], e ∷ es) else (c ∷ e, es)

-- `strings.Join(parts, "/")`
pub join : Bytes → List Bytes → Bytes
join e [] = e
join e (e' ∷ es) = e ++ (47 ∷ join e' es)

starts_with_slash : Bytes → Bool
starts_with_slash [] = false
starts_with_slash (c ∷ p) = c == 47

unfoldable pub bad_component : Bytes → Option PathError
unfolding contains
bad_component e =
    if length e == 0
    then some empty_component
    else if bytes_eq e (46 ∷ []) || bytes_eq e (46 ∷ 46 ∷ [])
    then some dots
    else if contains e 58
    then some volume_separator
    else none

-- The first component that is bad, if one is.
unfoldable pub bad_components : Bytes → List Bytes → Option PathError
unfolding bad_component
bad_components e [] = bad_component e
bad_components e (e' ∷ es) =
    let rest = bad_components e' es in elim (bad_component e) [ some x ↦ some x | none ↦ rest ]

pub safe_rel : Bytes → Result PathError Bytes
unfolding contains starts_with_slash bad_components split join
safe_rel p =
    let parts = split p in
    if length p == 0
    then err empty
    else if contains p 92
    then err backslash
    else if contains p 0
    then err nul
    else if starts_with_slash p
    then err absolute
    else elim (bad_components parts.0 parts.1) [ some e ↦ err e | none ↦ ok (join parts.0 parts.1) ]
