-- ===== src/Pairing/Offer.antt =====
-- internal/pairing/offer.go: what a scanned offer must say of the key that answers. SHA-256 is a
-- parameter. The printable form of an offer is not modelled.
pub mod Verify
mod Tests
use open_air.Prelude.{
  ℕ, Bool, true, false, not, List, [], ◌∷◌, ◌==◌, if◌then◌else◌, length, take, Bytes, bytes_eq,
  Option, none, some,
}
use open_air.Identity.Types.{DeviceId}
use open_air.Identity.DeviceId.{derive_device_id, valid}

abbrev pub fingerprint_len : ℕ
fingerprint_len = 16

abbrev pub proto_version : ℕ
proto_version = 1

pub record PairOffer : Type 0 where
  pub device_id : DeviceId
  pub identity_fingerprint : Bytes
  pub lan_hints : List Bytes
  pub proto_version : ℕ

pub data OfferError : Type 0 where
  nil_offer bad_device_id bad_fingerprint bad_key bad_version : OfferError
  mismatch : DeviceId → DeviceId → OfferError

pub validate_offer : Option PairOffer → Option OfferError
validate_offer none = some nil_offer
validate_offer (some o) =
    if not (valid o.device_id)
    then some bad_device_id
    else if not (length o.identity_fingerprint == fingerprint_len)
    then some bad_fingerprint
    else none

module _ (sha256 : Bytes → Bytes) where
  abbrev pub key_fingerprint : Bytes → Bytes
  key_fingerprint pub_key = take fingerprint_len (sha256 pub_key)

  -- `NewOffer` from the public key of this device and its hints; no offer if the key is malformed.
  pub new_offer : Bytes → List Bytes → Option PairOffer
  new_offer pub_key hints =
      if not (length pub_key == 32)
      then none
      else some (record {
        device_id = derive_device_id sha256 pub_key;
        identity_fingerprint = key_fingerprint pub_key;
        lan_hints = hints;
        proto_version = proto_version;
      })

  pub verify_offer : Option PairOffer → Bytes → Option OfferError
  unfolding validate_offer
  verify_offer none presented = some nil_offer
  verify_offer (some o) presented =
      let got = derive_device_id sha256 presented in
      elim (validate_offer (some o)) [
        | some e ↦ some e
        | none ↦
            if not (length presented == 32)
            then some bad_key
            else if not (o.proto_version == proto_version)
            then some bad_version
            else if not (bytes_eq (key_fingerprint presented) o.identity_fingerprint)
            then some (mismatch o.device_id got)
            else if not (bytes_eq got o.device_id)
            then some (mismatch o.device_id got)
            else none
      ]
