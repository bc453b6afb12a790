-- ===== src/Pairing/Authorize/Tests.antt =====
-- The gate on the sample store.
use open_air.Prelude.{◌≡◌, ◌↔◌, ◌⊎◌, [], none}
use open_air.Prelude.Int.{pos}
use open_air.Identity.Samples.{sha256, phone, one_peer, write_ok}
use open_air.Pairing.Guard.{Handler}
use open_air.Pairing.Authorize.{authorize}
use open_air.Pairing.Authorize.Gate.{IsPinned, IsPairing, authorize_iff}

abbrev handler : Handler
handler = record { store = one_peer; heap = []; guards = []; window = 1 }

authorize_iff_example :
    ((authorize sha256 write_ok (pos 9) handler phone).1 ≡ none)
    ↔ (IsPinned handler phone ⊎ IsPairing handler phone)
authorize_iff_example = authorize_iff sha256 write_ok (pos 9) handler phone
