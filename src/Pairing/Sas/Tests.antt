-- ===== src/Pairing/Sas/Tests.antt =====
-- Transcripts of two sample parties.
use open_air.Prelude.{◌≡◌, ◌⊎◌, refl, replicate, [], ◌++◌, Bytes, bytes_eq, bytes_lt, ok}
use open_air.Pairing.Sas.{Party, check_key, transcript, sas_context}
use open_air.Pairing.Sas.Binding.{filled, with_nonce_of, transcript-binds, transcript-symmetric}

abbrev laptop : Party
laptop = record {
  identity_key = replicate 32 9;
  privilege_key = replicate 32 4;
  nonce = replicate 32 1;
}

abbrev handset : Party
handset = record { identity_key = replicate 32 3; privilege_key = []; nonce = replicate 32 2 }

abbrev hashed : Bytes
hashed =
    sas_context
    ++ (replicate 32 3
        ++ (replicate 32 9
            ++ (replicate 32 0 ++ (replicate 32 4 ++ (replicate 32 1 ++ replicate 32 2)))))

transcript_test : transcript laptop handset ≡ ok hashed
unfolding transcript check_key bytes_eq bytes_lt
transcript_test = refl

transcript-binds_example :
    ((laptop.nonce ≡ laptop.nonce) × (handset.nonce ≡ handset.nonce))
    × (((laptop.identity_key ≡ laptop.identity_key) × (handset.identity_key ≡ handset.identity_key))
        ⊎ ((laptop.identity_key ≡ handset.identity_key)
            × (handset.identity_key ≡ laptop.identity_key)))
    × (((filled laptop.privilege_key ≡ filled laptop.privilege_key)
          × (filled handset.privilege_key ≡ filled handset.privilege_key))
        ⊎ ((filled laptop.privilege_key ≡ filled handset.privilege_key)
            × (filled handset.privilege_key ≡ filled laptop.privilege_key)))
transcript-binds_example =
    transcript-binds laptop handset laptop handset hashed transcript_test transcript_test

transcript-symmetric_example :
    transcript (with_nonce_of handset laptop) (with_nonce_of laptop handset) ≡ ok hashed
transcript-symmetric_example = transcript-symmetric laptop handset hashed transcript_test
