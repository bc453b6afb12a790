-- ===== src/Identity/KeyFile/Samples.antt =====
-- Test data: a toy cipher, and a container made with it.
use open_air.Prelude.{
  [], ◌∷◌, ◌++◌, if◌then◌else◌, take, drop, replicate, Bytes, bytes_eq, none, some,
}
use open_air.Identity.KeyFile.{Argon2Params, argon_header, file_of, KeyCrypto, derive_kek}

-- The tag is the first sixteen bytes of the key, filled up.
abbrev pub tag : Bytes → Bytes
tag key = take 16 (key ++ replicate 16 0)

abbrev pub toy : KeyCrypto
toy = record {
  argon2 = λ passphrase salt time memory lanes n. take n (passphrase ++ replicate n 7);
  aead_seal = λ key nonce plain ad. tag key ++ plain;
  aead_open =
      λ key nonce ct ad. if bytes_eq (take 16 ct) (tag key) then some (drop 16 ct) else none;
  new_key_from_seed = λ seed. seed ++ seed;
  public_half = λ priv. drop 32 priv;
}

abbrev pub secret : Bytes
secret = replicate 32 1 ++ replicate 32 2

abbrev pub costs : Argon2Params
costs = record { time = 3; memory = 65536; lanes = 4 }

abbrev pub salt : Bytes
salt = replicate 16 8

abbrev pub nonce : Bytes
nonce = replicate 24 9

abbrev pub passphrase : Bytes
passphrase = 112 ∷ 105 ∷ 110 ∷ []

abbrev pub kek : Bytes
kek = derive_kek toy passphrase salt costs

abbrev pub sealed : Bytes
sealed = file_of (argon_header 1 costs salt) nonce (tag kek ++ secret)
