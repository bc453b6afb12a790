-- ===== src/Identity/TrustStore.antt =====
-- internal/identity/truststore.go: the peers this device knows, kept in memory and mirrored to one
-- file. SHA-256 is a parameter, and so is the writer of the file (JSON and the file system): it
-- takes what the store hands it and returns the error, if any. The lock makes each call one step.
use open_air.Prelude.{
  ℕ, zero, suc, Bool, true, false, not, ◌&&◌, ◌||◌, List, [], ◌∷◌, map, ltb, ◌==◌, if◌then◌else◌,
  length, Option, none, some, Bytes, bytes_eq, bytes_lt, Result, ok, err,
}
use open_air.Prelude.Int.{ℤ, eqb_ℤ}
use open_air.Prelude.Maps.{Map, lookup, insert, remove}
use open_air.Identity.Types.{TrustLevel, level_owned, ProtectionTier, tier_none, DeviceId, Peer}
use open_air.Identity.DeviceId.{derive_device_id, valid}
pub mod Laws
mod Tests

abbrev pub trust_store_version : ℕ
trust_store_version = 1

-- `ed25519.PublicKeySize`
abbrev pub public_key_size : ℕ
public_key_size = 32

pub data StoreError {ℓ} (Io : Type ℓ) : Type ℓ where
  invalid_peer unknown_peer wrong_version : StoreError Io
  io : Io → StoreError Io

pub record StoredPeer : Type 0 where
  pub device_id : DeviceId
  pub identity_public_key : Bytes
  pub privilege_public_key : Bytes
  pub display_name : Bytes
  pub platform : Bytes
  pub level : ℤ
  pub granted_capabilities : Bytes
  pub auth_policy : Bytes
  pub token_granted_at : ℤ
  pub protection_tier : ℤ
  pub created_at : ℤ
  pub last_seen : ℤ

pub record TrustStoreFile : Type 0 where
  pub version : ℕ
  pub peers : List StoredPeer

abbrev pub to_stored : Peer → StoredPeer
to_stored p = record {
  device_id = p.device_id;
  identity_public_key = p.identity_public_key;
  privilege_public_key = p.privilege_public_key;
  display_name = p.display_name;
  platform = p.platform;
  level = p.level;
  granted_capabilities = p.granted_capabilities;
  auth_policy = p.auth_policy;
  token_granted_at = p.token_granted_at;
  protection_tier = p.protection_tier;
  created_at = p.created_at;
  last_seen = p.last_seen;
}

abbrev pub to_peer : StoredPeer → Peer
to_peer s = record {
  device_id = s.device_id;
  identity_public_key = s.identity_public_key;
  privilege_public_key = s.privilege_public_key;
  display_name = s.display_name;
  platform = s.platform;
  level = s.level;
  granted_capabilities = s.granted_capabilities;
  auth_policy = s.auth_policy;
  token_granted_at = s.token_granted_at;
  protection_tier = s.protection_tier;
  created_at = s.created_at;
  last_seen = s.last_seen;
}

-- `sort.Slice` by id
pub insert_sorted : Peer → List Peer → List Peer
insert_sorted p [] = p ∷ []
insert_sorted p (q ∷ ps) =
    let rest = insert_sorted p ps in
    if bytes_lt q.device_id p.device_id then q ∷ rest else p ∷ q ∷ ps

pub sort_peers : List Peer → List Peer
unfolding insert_sorted
sort_peers [] = []
sort_peers (p ∷ ps) = insert_sorted p (sort_peers ps)

abbrev pub TrustStore : Type 0
TrustStore = Map Peer

abbrev snd_of : Bytes × Peer → Peer
snd_of (k, p) = p

-- A peer crosses the boundary as a copy, which is the value itself here.
unfoldable pub get : TrustStore → DeviceId → Option Peer
get s id = lookup id s

pub list : TrustStore → List Peer
unfolding sort_peers
list s = sort_peers (map snd_of s)

module _ {ℓ} {Io : Type ℓ} (write_file : TrustStoreFile → Option Io) where
  unfoldable pub flush_locked : TrustStore → Option Io
  flush_locked s =
      write_file (record { version = trust_store_version; peers = map to_stored (list s) })

  unfoldable pub delete : TrustStore → DeviceId → TrustStore × Option (StoreError Io)
  delete s id =
      let s' = remove id s in
      elim (lookup id s) [
        | none ↦ (s, some unknown_peer)
        | some prev ↦ elim (flush_locked s') [
          | none ↦ (s', none)
          | some e ↦ (insert id prev s', some (io e))
        ]
      ]

module _ (sha256 : Bytes → Bytes) where
  unfoldable pub validate_peer : Peer → Bool
  validate_peer p =
      if not (valid p.device_id)
      then false
      else if not (length p.identity_public_key == public_key_size)
      then false
      else if not (bytes_eq (derive_device_id sha256 p.identity_public_key) p.device_id)
      then false
      else if not (length p.privilege_public_key == 0)
          && not (length p.privilege_public_key == public_key_size)
      then false
      else if eqb_ℤ p.level level_owned
          && (eqb_ℤ p.protection_tier tier_none || (length p.privilege_public_key == 0))
      then false
      else true

  module _ {ℓ} {Io : Type ℓ} (write_file : TrustStoreFile → Option Io) where
    -- The store comes back with the error: a write that fails is undone.
    unfoldable pub put : TrustStore → Peer → TrustStore × Option (StoreError Io)
    put s p =
        let prev = lookup p.device_id s in
        let s' = insert p.device_id p s in
        if not (validate_peer p)
        then (s, some invalid_peer)
        else elim (flush_locked write_file s') [
          | none ↦ (s', none)
          | some e ↦ elim prev [
            | some q ↦ (insert p.device_id q s', some (io e))
            | none ↦ (remove p.device_id s', some (io e))
          ]
        ]

  module _ {ℓ} {Io : Type ℓ} where
    unfoldable pub load_peers : TrustStore → List StoredPeer → Result (StoreError Io) TrustStore
    load_peers s [] = ok s
    load_peers s (sp ∷ sps) =
        let p = to_peer sp in
        let rest = load_peers (insert p.device_id p s) sps in
        if not (validate_peer p) then err invalid_peer else rest

    -- `OpenTrustStore` on what reading and parsing the file gave: no file, an error, or its content.
    unfoldable pub open_trust_store :
        Option (Result Io TrustStoreFile) → Result (StoreError Io) TrustStore
    unfolding load_peers
    open_trust_store none = ok []
    open_trust_store (some (err e)) = err (io e)
    open_trust_store (some (ok f)) =
        if not (f.version == trust_store_version) then err wrong_version else load_peers [] f.peers
