-- ===== src/Pairing/Offer/Tests.antt =====
-- An offer of the sample phone.
use open_air.Prelude.{◌≡◌, ◌↔◌, refl, [], replicate, Bytes, IsByte, All, none, some, arith}
use open_air.Identity.Samples.{sha256, phone_id, phone_key}
use open_air.Pairing.Offer.{PairOffer, verify_offer}
use open_air.Pairing.Offer.Verify.{Describes, verify_offer_iff}

abbrev offer : PairOffer
offer = record {
  device_id = phone_id;
  identity_fingerprint = replicate 16 0;
  lan_hints = [];
  proto_version = 1;
}

digest_bytes : (m : Bytes) → All IsByte (sha256 m)
digest_bytes m = omega arith

verify_offer_iff_example :
    (verify_offer sha256 (some offer) phone_key ≡ none) ↔ Describes sha256 offer phone_key
verify_offer_iff_example = verify_offer_iff sha256 (λ m. refl) digest_bytes offer phone_key
