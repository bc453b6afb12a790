-- ===== src/Pairing/Guard.antt =====
-- internal/pairing/guard.go and authorize.go: what a peer may do, at connect time and while its
-- session lives. Capabilities keep a session's `*Guard`, so guards are objects on a heap, and the
-- map of the handler holds their places. Logs and the linger before a close are left out.
pub mod Revoke
mod Tests
use open_air.Prelude.{
  ℕ, zero, suc, ◌+◌, ◌-◌, Bool, true, false, not, ◌&&◌, ◌||◌, List, [], ◌∷◌, ◌++◌, Option, none,
  some, ltb, ◌==◌, if◌then◌else◌, length, get_or, set, Bytes, bytes_eq, Result,
}
use open_air.Prelude.Int.{ℤ, leb_ℤ, ltb_ℤ, eqb_ℤ}
use open_air.Prelude.Maps.{Map, lookup, insert, remove}
use open_air.Identity.Types.{TrustLevel, level_unpaired, DeviceId, Peer}
use open_air.Identity.TrustStore.{
  TrustStore, TrustStoreFile, StoreError, invalid_peer, unknown_peer, wrong_version, io, get, put,
  delete,
}
use open_air.Session.Convert.{trust_level_to_wire, trust_level_from_wire, cap_id_to_wire}

pub record Guard : Type 0 where
  pub device_id : DeviceId
  pub level : TrustLevel
  pub granted : TrustLevel
  pub granted_caps : List ℕ
  pub reason : Bytes

pub record Session : Type 0 where
  pub key : Bytes
  pub peer_id : DeviceId

pub record Handler : Type 0 where
  pub store : TrustStore
  pub heap : List Guard
  pub guards : Map ℕ
  pub window : ℕ

abbrev pub no_guard : Guard
no_guard = record {
  device_id = [];
  level = level_unpaired;
  granted = level_unpaired;
  granted_caps = [];
  reason = [];
}

abbrev pub guard_at : Handler → ℕ → Guard
guard_at h g = get_or h.heap g no_guard

-- `Guard.Authorize`
pub allows : Guard → TrustLevel → Bool
allows g required = leb_ℤ required g.level && ltb_ℤ level_unpaired g.level

pub granted_capability : Guard → ℕ → Bool
granted_capability g cap = any_is g.granted_caps
  where
    any_is : List ℕ → Bool
    any_is [] = false
    any_is (c ∷ cs) = c == cap || any_is cs

unfoldable pub set_guard : Handler → ℕ → TrustLevel → Bytes → Handler
set_guard h g level reason = record h {
  heap = set h.heap g (record (guard_at h g) { level = level; reason = reason });
}

unfoldable pub set_granted : Handler → ℕ → TrustLevel → List ℕ → Bytes → Handler
set_granted h g level caps reason =
    let old = guard_at h g in
    record h {
      heap = set h.heap g (record old {
        granted = level;
        reason = if not (length reason == 0) then reason else old.reason;
        granted_caps = caps ++ old.granted_caps;
      });
    }

-- A guard as the store has the peer; one with no record is unpaired.
abbrev pub fresh_guard : TrustStore → DeviceId → Guard
fresh_guard s id = elim (get s id) [
  | none ↦ record no_guard { device_id = id }
  | some p ↦ record no_guard {
    device_id = id;
    level = p.level;
    granted_caps = p.granted_capabilities;
  }
]

unfoldable pub guard_for : Handler → Session → Handler × ℕ
guard_for h sess = elim (lookup sess.key h.guards) [
  | some g ↦ (h, g)
  | none ↦ (
    record h {
      heap = h.heap ++ (fresh_guard h.store sess.peer_id ∷ []);
      guards = insert sess.key (length h.heap) h.guards;
    },
    length h.heap,
  )
]

unfoldable pub detach : Handler → Session → Handler
detach h sess = record h { guards = remove sess.key h.guards }

-- What goes out on the session.
pub data Action : Type 0 where
  send_revoke : ℤ → Bytes → Action
  close_not_paired : Bytes → Action

-- "unpaired by peer"
abbrev pub unpaired_by_peer : Bytes
unpaired_by_peer =
    117 ∷ 110 ∷ 112 ∷ 97 ∷ 105 ∷ 114 ∷ 101 ∷ 100 ∷ 32 ∷ 98 ∷ 121 ∷ 32 ∷ 112 ∷ 101 ∷ 101 ∷ 114 ∷ []

pub data GuardError : Type 0 where
  store_failed not_delivered : GuardError

-- An error of the store other than `ErrUnknownPeer`.
abbrev pub is_failure {ℓ} : {Io : Type ℓ} → Option (StoreError Io) → Bool
is_failure none = false
is_failure (some invalid_peer) = true
is_failure (some unknown_peer) = false
is_failure (some wrong_version) = true
is_failure (some (io e)) = true

module _ {ℓ} {Io : Type ℓ} (sha256 : Bytes → Bytes) (write_file : TrustStoreFile → Option Io) where
  -- The store's part of `Revoke`, and whether it failed. `Put` never reports an unknown peer.
  unfoldable pub narrow : TrustStore → DeviceId → TrustLevel → TrustStore × Bool
  narrow s id level =
      if eqb_ℤ level level_unpaired
      then (let r = delete write_file s id in (r.0, is_failure r.1))
      else elim (get s id) [
        | none ↦ (s, false)
        | some p ↦
            if ltb_ℤ level p.level
            then (let r = put sha256 write_file s (record p { level = level }) in
                (r.0, is_failure r.1))
            else (s, false)
      ]

  -- `Revoke`; `sent` is whether the notification could be sent.
  unfoldable pub revoke :
      Handler → Session → TrustLevel → Bytes → Bool → Handler × List Action × Option GuardError
  revoke h sess level reason sent =
      let r = guard_for h sess in
      let s = narrow r.0.store sess.peer_id level in
      let h' = record (r.0) { store = s.0 } in
      let done = set_guard h' r.1 level reason in
      let told = if sent then none else some not_delivered in
      if s.1
      then (h', [], some store_failed)
      else if eqb_ℤ level level_unpaired
      then (
        detach done sess,
        send_revoke (trust_level_to_wire level) reason ∷ close_not_paired reason ∷ [],
        told,
      )
      else (done, send_revoke (trust_level_to_wire level) reason ∷ [], told)

  -- `onRevoke`, an inbound revoke
  unfoldable pub on_revoke :
      Handler → Session → ℤ → Bytes → Handler × List Action × Option GuardError
  on_revoke h sess wire_level reason =
      let level = trust_level_from_wire wire_level in
      let r = guard_for h sess in
      let h' = set_granted (r.0) r.1 level [] reason in
      let d = delete write_file h'.store sess.peer_id in
      let h'' = record h' { store = d.0 } in
      if not (eqb_ℤ level level_unpaired)
      then (h', [], none)
      else if is_failure d.1
      then (h'', [], some store_failed)
      else (
        detach (set_guard h'' r.1 level_unpaired reason) sess,
        close_not_paired unpaired_by_peer ∷ [],
        none,
      )

-- The known capabilities of a grant; others are passed over.
abbrev pub known_caps : List ℤ → List ℕ
known_caps [] = []
known_caps (id ∷ ids) = elim (cap_id_to_wire id) [
  | none ↦ known_caps ids
  | some c ↦ c ∷ known_caps ids
]

-- `onGrant`
pub on_grant : Handler → Session → List ℤ → ℤ → Handler
on_grant h sess cap_ids wire_level =
    let r = guard_for h sess in
    set_granted r.0 r.1 (trust_level_from_wire wire_level) (known_caps cap_ids) []
