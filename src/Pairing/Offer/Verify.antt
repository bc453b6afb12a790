-- ===== src/Pairing/Offer/Verify.antt =====
-- An offer verifies against the key it was made for, and against no key that it does not describe.
use open_air.Prelude.{
  ◌≡◌, ◌↔◌, subst, true, ◌==◌, length, length-take, take, Bytes, IsByte, All, bytes_eq→eq,
  bytes_eq_iff, none, some, arith,
}
use open_air.Identity.DeviceId.{derive_device_id, valid}
use open_air.Identity.DeviceId.Laws.{derive_device_id-valid}
use open_air.Pairing.Offer.{
  PairOffer, validate_offer, verify_offer, key_fingerprint, fingerprint_len, proto_version,
}

-- The offer is of this version, and its id and fingerprint are those of the key.
abbrev pub Describes : (Bytes → Bytes) → PairOffer → Bytes → Type 0
Describes sha256 o pub_key =
    (length pub_key ≡ 32)
    × (o.proto_version ≡ proto_version)
    × (take fingerprint_len (sha256 pub_key) ≡ o.identity_fingerprint)
    × (derive_device_id sha256 pub_key ≡ o.device_id)

module _ (sha256 : Bytes → Bytes) (digest_len : (m : Bytes) → length (sha256 m) ≡ 32)
    (digest_bytes : (m : Bytes) → All IsByte (sha256 m)) where
  verify_offer→Describes :
      (o : PairOffer) (presented : Bytes)
      → verify_offer sha256 (some o) presented ≡ none
      → Describes sha256 o presented
  unfolding verify_offer
  verify_offer→Describes o presented e = ground (
    arith,
    e,
    bytes_eq→eq (key_fingerprint sha256 presented) o.identity_fingerprint,
    bytes_eq→eq (derive_device_id sha256 presented) o.device_id,
  )

  Describes→verify_offer :
      (o : PairOffer) (presented : Bytes)
      → Describes sha256 o presented
      → verify_offer sha256 (some o) presented ≡ none
  unfolding verify_offer validate_offer
  Describes→verify_offer o presented (len, version, print, id) =
      let well_formed : valid o.device_id ≡ true =
        subst (λ d. valid d ≡ true) id
          (derive_device_id-valid sha256 presented (omega (arith, digest_len presented))
            (digest_bytes presented)) in
      let size : (length o.identity_fingerprint == fingerprint_len) ≡ true =
        subst (λ x. (length x == fingerprint_len) ≡ true) print
          (ground (arith, length-take fingerprint_len (sha256 presented), digest_len presented)) in
      let same_print =
        (bytes_eq_iff (key_fingerprint sha256 presented) o.identity_fingerprint).1 print in
      let same_id = (bytes_eq_iff (derive_device_id sha256 presented) o.device_id).1 id in
      ground (arith, len, version, well_formed, size, same_print, same_id)

  -- Where digests are 32 bytes, `VerifyOffer` accepts a key exactly if the offer describes it: the
  -- key has its 32 bytes, the version is this one, and the id and fingerprint are the key's.
  pub verify_offer_iff :
      (o : PairOffer) (presented : Bytes)
      → (verify_offer sha256 (some o) presented ≡ none) ↔ Describes sha256 o presented
  verify_offer_iff o presented =
      (verify_offer→Describes o presented, Describes→verify_offer o presented)
