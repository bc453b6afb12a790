-- ===== src/RemoteFs/WirePath/Tests.antt =====
-- Paths that a peer asks for.
use open_air.Prelude.{◌≡◌, ◌≢◌, refl, true, [], ◌∷◌, Bytes, All, bytes_eq, ok, err}
use open_air.Files.Path.{contains, split, bad_component, bad_components, dots}
use open_air.Files.Path.Safe.{IsName}
use open_air.RemoteFs.WirePath.{
  trim_left, trim_right, clean_wire_path, is_root_path, checked_path, safe_wire_path,
}
use open_air.RemoteFs.WirePath.Safe.{safe_wire_path-IsName}

-- `/a/b//`
abbrev asked : Bytes
asked = 47 ∷ 97 ∷ 47 ∷ 98 ∷ 47 ∷ 47 ∷ []

-- `a/b`
abbrev cleaned : Bytes
cleaned = 97 ∷ 47 ∷ 98 ∷ []

passes : safe_wire_path asked ≡ ok cleaned
unfolding safe_wire_path checked_path trim_left trim_right contains split bad_component
    bad_components bytes_eq
passes = refl

roots : is_root_path (47 ∷ 46 ∷ 47 ∷ []) ≡ true
unfolding is_root_path trim_left trim_right bytes_eq
roots = refl

parent : safe_wire_path (97 ∷ 47 ∷ 46 ∷ 46 ∷ []) ≡ err dots
unfolding safe_wire_path checked_path trim_left trim_right contains split bad_component
    bad_components bytes_eq
parent = refl

safe_wire_path-IsName_example :
    (cleaned ≡ clean_wire_path asked)
    × All IsName ((split cleaned).0 ∷ (split cleaned).1)
    × All (λ c. c ≢ 92) cleaned
    × All (λ c. c ≢ 0) cleaned
    × (safe_wire_path cleaned ≡ ok cleaned)
safe_wire_path-IsName_example = safe_wire_path-IsName asked cleaned passes
