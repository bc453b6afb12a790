-- ===== src/Pairing/Authorize.antt =====
-- internal/pairing/authorize.go: the gate that a session passes once its Hello is complete, and the
-- pairing windows that let an unpaired peer in. The clock is a parameter.
pub mod Gate
mod Tests
use open_air.Prelude.{
  ℕ, zero, suc, ◌+◌, ◌-◌, Bool, true, false, not, ◌&&◌, ◌||◌, [], Option, none, some, ltb, ◌==◌,
  if◌then◌else◌, length, Bytes, bytes_eq, Result, ok, err,
}
use open_air.Prelude.Int.{ℤ, ltb_ℤ}
use open_air.Identity.Types.{level_unpaired, Peer}
use open_air.Identity.TrustStore.{TrustStoreFile, get, put}
use open_air.Pairing.Guard.{Handler}

pub data GateError : Type 0 where
  no_peer_certificate unpaired pairing_closed : GateError
  key_mismatch : Bytes → Bytes → GateError

pub check_pinned : Peer → Peer → Option GateError
check_pinned stored presented =
    if length presented.identity_public_key == 0
    then some no_peer_certificate
    else if not (bytes_eq stored.identity_public_key presented.identity_public_key)
    then some (key_mismatch stored.identity_public_key presented.identity_public_key)
    else none

abbrev pub window_open : Handler → Bool
window_open h = ltb 0 h.window

-- A refusal, but not while a window is open.
abbrev pub unless_pairing : Handler → GateError → Option GateError
unless_pairing h e = if window_open h then none else some e

pub open_window : Handler → Handler
open_window h = record h { window = h.window + 1 }

-- The first call of the func that `OpenWindow` returns; a later one does nothing.
pub close_window : Handler → Handler
close_window h = record h { window = if ltb 0 h.window then h.window - 1 else h.window }

module _ {ℓ} {Io : Type ℓ} (sha256 : Bytes → Bytes) (write_file : TrustStoreFile → Option Io)
    (now : ℤ) where
  -- An error of the store is only logged.
  unfoldable pub touch : Handler → Peer → Handler
  touch h stored = record h {
    store = (put sha256 write_file h.store (record stored { last_seen = now })).0;
  }

  unfoldable pub authorize : Handler → Peer → Handler × Option GateError
  unfolding touch check_pinned
  authorize h peer = elim (get h.store peer.device_id) [
    | none ↦ (h, unless_pairing h pairing_closed)
    | some stored ↦
        if ltb_ℤ level_unpaired stored.level
        then elim (check_pinned stored peer) [
          | some e ↦ (h, some e)
          | none ↦ (touch h stored, none)
        ]
        else (h, unless_pairing h unpaired)
  ]
