-- ===== src/Identity/TrustStore/Tests.antt =====
-- The store and its theorems on the sample records.
use open_air.Prelude.{
  ℕ, ◌≡◌, ◌⊎◌, refl, true, false, [], ◌∷◌, none, some, if◌then◌else◌, bytes_eq, ok, arith,
}
use open_air.Prelude.Maps.{lookup, insert, remove}
use open_air.Identity.Types.{DeviceId, Peer}
use open_air.Identity.DeviceId.{
  derive_device_id, base32_encode, valid, all_in_alphabet, fingerprint,
}
use open_air.Identity.DeviceId.Laws.{derive_device_id-valid}
use open_air.Identity.TrustStore.{
  invalid_peer, unknown_peer, io, get, put, delete, validate_peer, flush_locked, open_trust_store,
  load_peers, to_stored,
}
use open_air.Identity.TrustStore.Laws.{put_lem, delete_lem, AllValid, put-AllValid}
use open_air.Identity.Samples.{
  sha256, phone_id, phone_key, phone, one_peer, write_ok, disk_full, one_peer-AllValid,
}

-- A full disk undoes an unpair.
delete_undone_test : delete disk_full one_peer phone_id ≡ (one_peer, some (io 28))
unfolding delete flush_locked lookup insert remove bytes_eq
delete_undone_test = refl

open_test :
    open_trust_store sha256 {Io = ℕ}
      (some (ok (record { version = 1; peers = to_stored phone ∷ [] })))
    ≡ ok one_peer
unfolding open_trust_store load_peers validate_peer derive_device_id base32_encode valid
    all_in_alphabet bytes_eq insert remove
open_test = refl

fingerprint_test : fingerprint (97 ∷ 98 ∷ 99 ∷ 100 ∷ 101 ∷ []) ≡ 97 ∷ 98 ∷ 99 ∷ 100 ∷ 45 ∷ 101 ∷ []
unfolding fingerprint
fingerprint_test = refl

derived_id : valid (derive_device_id sha256 phone_key) ≡ true
derived_id = derive_device_id-valid sha256 phone_key (omega arith) (omega arith)

put_lem_example :
    ((validate_peer sha256 phone ≡ false)
      × (put sha256 disk_full [] phone ≡ ([], some invalid_peer)))
    ⊎ ((validate_peer sha256 phone ≡ true)
        × ((e : ℕ) × ((put sha256 disk_full [] phone).1 ≡ some (io e))
            × ((id : DeviceId) → get (put sha256 disk_full [] phone).0 id ≡ get [] id)))
    ⊎ ((validate_peer sha256 phone ≡ true)
        × ((put sha256 disk_full [] phone).1 ≡ none)
        × (flush_locked disk_full (put sha256 disk_full [] phone).0 ≡ none)
        × ((id : DeviceId)
            → get (put sha256 disk_full [] phone).0 id
              ≡ (if bytes_eq id phone_id then some phone else get [] id)))
put_lem_example = put_lem sha256 disk_full [] phone

delete_lem_test :
    ((get one_peer phone_id ≡ none)
      × (delete write_ok one_peer phone_id ≡ (one_peer, some unknown_peer)))
    ⊎ ((p : Peer) × (get one_peer phone_id ≡ some p)
        × (((e : ℕ) × ((delete write_ok one_peer phone_id).1 ≡ some (io e))
              × ((id' : DeviceId)
                  → get (delete write_ok one_peer phone_id).0 id' ≡ get one_peer id'))
            ⊎ (((delete write_ok one_peer phone_id).1 ≡ none)
                × (flush_locked write_ok (delete write_ok one_peer phone_id).0 ≡ none)
                × ((id' : DeviceId)
                    → get (delete write_ok one_peer phone_id).0 id'
                      ≡ (if bytes_eq id' phone_id then none else get one_peer id')))))
delete_lem_test = delete_lem sha256 write_ok one_peer phone_id

put_allvalid_test : AllValid sha256 (put sha256 write_ok one_peer phone).0
put_allvalid_test = put-AllValid sha256 write_ok one_peer phone one_peer-AllValid
