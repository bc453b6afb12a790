-- ===== src/Identity/KeyFile/Tests.antt =====
-- Containers made with a toy cipher.
use open_air.Prelude.{
  ℕ, ◌≡◌, refl, [], ◌∷◌, ◌++◌, length, length-append, length-replicate, length-take, take_at,
  drop_at, take, replicate, slice, All, IsByte, Bytes, bytes_eq, bytes_eq_refl, put_le, get_le,
  some, ok, err, arith,
}
use open_air.Identity.KeyFile.{
  SealedKeyFile, key_file_format, wrong_passphrase, argon_header, file_of, checked,
  parse_sealed_key_file, seal_privilege_key, kek_of, key_of_plaintext, open_sealed, open_privilege,
}
use open_air.Identity.KeyFile.Format.{parse-file_of}
use open_air.Identity.KeyFile.Exact.{parse_sealed_key_file-exact}
use open_air.Identity.KeyFile.Sealing.{Documented, open_privilege-seal}
use open_air.Identity.KeyFile.Samples.{
  tag, toy, secret, costs, salt, nonce, passphrase, kek, sealed,
}

seals : seal_privilege_key toy secret 1 costs passphrase [] salt nonce ≡ ok sealed
unfolding seal_privilege_key
seals = refl

wrong_key : open_privilege toy (some sealed) (replicate 32 2) (112 ∷ []) [] ≡ err wrong_passphrase
unfolding open_privilege parse_sealed_key_file checked open_sealed kek_of key_of_plaintext bytes_eq
    put_le get_le slice
wrong_key = refl

cut_short : parse_sealed_key_file (take 100 sealed) ≡ err key_file_format
unfolding parse_sealed_key_file checked bytes_eq put_le get_le slice
cut_short = refl

length-tag : (key : Bytes) → length (tag key) ≡ 16
length-tag key = omega (
  arith,
  length-take 16 (key ++ replicate 16 0),
  length-append key (replicate 16 0),
  length-replicate {A = ℕ} 16 0,
)

toy-Documented : Documented toy
toy-Documented = record {
  length-argon2 = λ passphrase salt time memory lanes n. omega (
    arith,
    length-take n (passphrase ++ replicate n 7),
    length-append passphrase (replicate n 7),
    length-replicate {A = ℕ} n 7,
  );
  open-seal = λ key nonce plain ad.
      rw
        (
          take_at 16 (tag key) plain (length-tag key),
          drop_at 16 (tag key) plain (length-tag key),
          bytes_eq_refl (tag key),
        )
        refl;
  length-seal = λ key nonce plain ad. omega (arith, length-append (tag key) plain, length-tag key);
}

open_privilege-seal_example :
    open_privilege toy (some sealed) (replicate 32 2) passphrase [] ≡ ok secret
open_privilege-seal_example =
    open_privilege-seal toy secret (replicate 32 2) 1 costs passphrase [] salt nonce sealed
      toy-Documented (omega arith) (omega arith) refl refl refl refl seals

abbrev parsed : SealedKeyFile
parsed = record {
  kdf = 1;
  params = costs;
  salt = salt;
  nonce = nonce;
  ct = tag kek ++ secret;
  ad = argon_header 1 costs salt;
}

parses : parse_sealed_key_file sealed ≡ ok parsed
unfolding parse_sealed_key_file checked bytes_eq put_le get_le slice
parses = refl

parse-file_of_example :
    parse_sealed_key_file (file_of (argon_header 1 costs salt) nonce secret)
    ≡ checked (record {
      kdf = 1;
      params = costs;
      salt = salt;
      nonce = nonce;
      ct = secret;
      ad = argon_header 1 costs salt;
    })
parse-file_of_example = parse-file_of 1 costs salt nonce secret (record {
  time_fits = omega arith;
  memory_fits = omega arith;
  salt_fits = omega arith;
  nonce_fits = refl;
  ct_fits = omega arith;
})

sealed-IsByte : All IsByte sealed
unfolding put_le
sealed-IsByte = ground arith

parse_sealed_key_file_exact_test :
    (sealed ≡ file_of (argon_header 1 costs salt) nonce (tag kek ++ secret))
    × (argon_header 1 costs salt ≡ argon_header 1 costs salt)
    × (checked parsed ≡ ok parsed)
parse_sealed_key_file_exact_test = parse_sealed_key_file-exact sealed parsed sealed-IsByte parses
