-- ===== src/Files/Path/Tests.antt =====
-- Paths that pass and paths that do not.
use open_air.Prelude.{◌≡◌, ◌≢◌, refl, [], ◌∷◌, Bytes, All, bytes_eq, ok, err}
use open_air.Files.Path.{safe_rel, split, dots}
use open_air.Files.Path.Safe.{IsName, safe_rel-IsName}

-- `a/b`
abbrev nested : Bytes
nested = 97 ∷ 47 ∷ 98 ∷ []

nested_test : safe_rel nested ≡ ok nested
unfolding safe_rel bytes_eq
nested_test = refl

-- `a/..`
parent_test : safe_rel (97 ∷ 47 ∷ 46 ∷ 46 ∷ []) ≡ err dots
unfolding safe_rel bytes_eq
parent_test = refl

safe_rel-IsName_example :
    (nested ≡ nested)
    × All IsName ((split nested).0 ∷ (split nested).1)
    × All (λ c. c ≢ 92) nested
    × All (λ c. c ≢ 0) nested
safe_rel-IsName_example = safe_rel-IsName nested nested nested_test
