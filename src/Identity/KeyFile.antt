-- ===== src/Identity/KeyFile.antt =====
-- internal/identity/keyfile.go and `openPrivilege` of identity.go: the container that holds the
-- privilege key at rest, PROTOCOL.md Appendix A. Argon2id, XChaCha20-Poly1305, Ed25519 and the random
-- bytes are parameters; an `int` is wide enough for a length of 32 bits.
pub mod Format
pub mod Exact
pub mod Sealing
pub mod Samples
mod Tests
use open_air.Prelude.{
  ℕ, ◌+◌, ◌-◌, ◌*◌, ◌%◌, ◌^◌, Bool, true, false, not, ◌&&◌, ◌||◌, [], ◌∷◌, ◌++◌, ltb, ◌==◌,
  if◌then◌else◌, length, take, drop, get_or, slice, Bytes, bytes_eq, put_le, get_le, Option, none,
  some, Result, ok, err, and_then,
}

abbrev pub key_file_version : ℕ
key_file_version = 1

abbrev pub kdf_none : ℕ
kdf_none = 0

abbrev pub kdf_argon2id : ℕ
kdf_argon2id = 1

abbrev pub nonce_len : ℕ
nonce_len = 24

abbrev pub kek_len : ℕ
kek_len = 32

abbrev pub header_fixed_len : ℕ
header_fixed_len = 18

-- "OAKEY\0"
abbrev pub key_file_magic : Bytes
key_file_magic = 79 ∷ 65 ∷ 75 ∷ 69 ∷ 89 ∷ 0 ∷ []

pub record Argon2Params : Type 0 where
  pub time : ℕ
  pub memory : ℕ
  pub lanes : ℕ

abbrev pub no_params : Argon2Params
no_params = record { time = 0; memory = 0; lanes = 0 }

abbrev pub valid_params : Argon2Params → Bool
valid_params p = ltb 0 p.time && (ltb 0 p.memory && ltb 0 p.lanes)

abbrev pub is_no_params : Argon2Params → Bool
is_no_params p = p.time == 0 && (p.memory == 0 && p.lanes == 0)

pub record SealedKeyFile : Type 0 where
  pub kdf : ℕ
  pub params : Argon2Params
  pub salt : Bytes
  pub nonce : Bytes
  pub ct : Bytes
  pub ad : Bytes

-- The errors by what `errors.Is` tells of them.
pub data KeyError : Type 0 where
  key_file_format no_keystore wrong_passphrase no_privilege_key other_failure : KeyError

abbrev pub argon_header : ℕ → Argon2Params → Bytes → Bytes
argon_header kdf p salt =
    key_file_magic
    ++ (key_file_version
        ∷ kdf
        ∷ (put_le 4 p.time ++ (put_le 4 p.memory ++ (p.lanes ∷ length salt % 256 ∷ salt))))

-- The header, the nonce and the ciphertext, in the order of the file.
abbrev pub file_of : Bytes → Bytes → Bytes → Bytes
file_of ad nonce ct = ad ++ (nonce ++ (put_le 4 (length ct) ++ ct))

-- The last check of `parseSealedKeyFile`.
unfoldable pub checked : SealedKeyFile → Result KeyError SealedKeyFile
checked f =
    if f.kdf == kdf_argon2id
    then (if not (valid_params f.params) || length f.salt == 0 then err key_file_format else ok f)
    else if f.kdf == kdf_none
    then (if not (is_no_params f.params) then err key_file_format else ok f)
    else err key_file_format

unfoldable pub parse_sealed_key_file : Bytes → Result KeyError SealedKeyFile
parse_sealed_key_file b =
    let sl = get_or b 17 0 in
    let off = header_fixed_len + sl in
    let body = off + nonce_len + 4 in
    if ltb (length b) header_fixed_len
    then err key_file_format
    else if not (bytes_eq (take 6 b) key_file_magic)
    then err key_file_format
    else if not (get_or b 6 0 == key_file_version)
    then err key_file_format
    else if ltb (length b) body
    then err key_file_format
    else if not (length b - body == get_le (slice (off + nonce_len) body b))
    then err key_file_format
    else checked (record {
      kdf = get_or b 7 0;
      params = record {
        time = get_le (slice 8 12 b);
        memory = get_le (slice 12 16 b);
        lanes = get_or b 16 0;
      };
      salt = slice header_fixed_len off b;
      nonce = slice off (off + nonce_len) b;
      ct = drop body b;
      ad = take off b;
    })

-- The libraries' cryptography. `argon2 passphrase salt time memory lanes length`,
-- `aead_seal key nonce plaintext ad`, and `aead_open key nonce ciphertext ad`.
pub record KeyCrypto : Type 0 where
  pub argon2 : Bytes → Bytes → ℕ → ℕ → ℕ → ℕ → Bytes
  pub aead_seal : Bytes → Bytes → Bytes → Bytes → Bytes
  pub aead_open : Bytes → Bytes → Bytes → Bytes → Option Bytes
  pub new_key_from_seed : Bytes → Bytes
  pub public_half : Bytes → Bytes

module _ (lib : KeyCrypto) where
  abbrev pub derive_kek : Bytes → Bytes → Argon2Params → Bytes
  derive_kek passphrase salt p = lib.argon2 passphrase salt p.time p.memory p.lanes kek_len

  -- `chacha20poly1305.NewX` refuses a key of another length.
  abbrev pub sealed_with : Bytes → ℕ → Argon2Params → Bytes → Bytes → Bytes → Result KeyError Bytes
  sealed_with priv kdf p salt kek nonce =
      let ad = argon_header kdf p salt in
      if not (length kek == kek_len)
      then err other_failure
      else ok (file_of ad nonce (lib.aead_seal kek nonce priv ad))

  -- `sealPrivilegeKey`, on a salt and a nonce that the random source gave.
  unfoldable pub seal_privilege_key :
      Bytes → ℕ → Argon2Params → Bytes → Bytes → Bytes → Bytes → Result KeyError Bytes
  seal_privilege_key priv kdf p passphrase keystore_kek salt nonce =
      if kdf == kdf_argon2id
      then (if length passphrase == 0
          then err other_failure
          else if not (valid_params p)
          then err other_failure
          else sealed_with priv kdf p salt (derive_kek passphrase salt p) nonce)
      else if kdf == kdf_none
      then (if not (length keystore_kek == kek_len)
          then err no_keystore
          else sealed_with priv kdf no_params [] keystore_kek nonce)
      else err key_file_format

  -- The key that the container is to be opened with.
  unfoldable pub kek_of : SealedKeyFile → Bytes → Bytes → Result KeyError Bytes
  kek_of f passphrase keystore_kek =
      if f.kdf == kdf_argon2id
      then ok (derive_kek passphrase f.salt f.params)
      else if f.kdf == kdf_none
      then (if not (length keystore_kek == kek_len) then err no_keystore else ok keystore_kek)
      else err key_file_format

  -- The private key that a plaintext stands for: the expanded form, or a seed.
  unfoldable pub key_of_plaintext : Bytes → Result KeyError Bytes
  key_of_plaintext pt =
      if length pt == 64
      then ok pt
      else if length pt == 32
      then ok (lib.new_key_from_seed pt)
      else err key_file_format

  unfoldable pub open_sealed : SealedKeyFile → Bytes → Bytes → Result KeyError Bytes
  open_sealed f passphrase keystore_kek = and_then (kek_of f passphrase keystore_kek) (λ kek.
      if not (length kek == kek_len)
      then err other_failure
      else elim (lib.aead_open kek f.nonce f.ct f.ad) [
        | none ↦ err wrong_passphrase
        | some pt ↦ key_of_plaintext pt
      ])

  abbrev pub matches_public : Bytes → Bytes → Bool
  matches_public priv pub_key = bytes_eq (lib.public_half priv) pub_key

  -- `openPrivilege`, on the sealed file and the public key of the identity.
  unfoldable pub open_privilege : Option Bytes → Bytes → Bytes → Bytes → Result KeyError Bytes
  open_privilege none privilege_pub passphrase keystore_kek = err no_privilege_key
  open_privilege (some sealed) privilege_pub passphrase keystore_kek =
      and_then (parse_sealed_key_file sealed) (λ f.
        and_then (open_sealed f passphrase keystore_kek) (λ priv.
          if not (matches_public priv privilege_pub) then err key_file_format else ok priv))
