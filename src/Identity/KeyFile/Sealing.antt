-- ===== src/Identity/KeyFile/Sealing.antt =====
-- Sealing a privilege key and opening it again.
use open_air.Prelude.{
  ℕ, ◌+◌, ◌^◌, ◌<◌, ◌≡◌, refl, sym, ap, ◌∙◌, inl, inr, true, Bool-cases, not, [], ◌==◌, ==_iff,
  length, Bytes, bytes_eq_refl, some, ok, guarded_ok, true_of_not, ok_injective, arith,
}
use open_air.Identity.KeyFile.{
  Argon2Params, no_params, valid_params, SealedKeyFile, other_failure, no_keystore, kdf_none,
  kdf_argon2id, kek_len, argon_header, checked, parse_sealed_key_file, KeyCrypto, derive_kek,
  seal_privilege_key, kek_of, key_of_plaintext, open_sealed, open_privilege,
}
use open_air.Identity.KeyFile.Format.{WellSized, parse-file_of}

-- What the libraries document: a key as long as asked for, and a ciphertext that opens under the key,
-- nonce and associated data that it was made with, and is sixteen bytes longer than the plaintext.
pub record Documented (lib : KeyCrypto) : Type 0 where
  pub length-argon2 :
      (passphrase salt : Bytes) (time memory lanes n : ℕ)
      → length (lib.argon2 passphrase salt time memory lanes n) ≡ n
  pub open-seal :
      (key nonce plain ad : Bytes)
      → lib.aead_open key nonce (lib.aead_seal key nonce plain ad) ad ≡ some plain
  pub length-seal :
      (key nonce plain ad : Bytes) → length (lib.aead_seal key nonce plain ad) ≡ length plain + 16

module _ (lib : KeyCrypto) where
  -- Opening, step by step.
  open_parsed :
      (sealed pub_key passphrase keystore_kek priv kek : Bytes) (f : SealedKeyFile)
      → parse_sealed_key_file sealed ≡ ok f
      → kek_of lib f passphrase keystore_kek ≡ ok kek
      → length kek ≡ kek_len
      → lib.aead_open kek f.nonce f.ct f.ad ≡ some priv
      → length priv ≡ 64
      → lib.public_half priv ≡ pub_key
      → open_privilege lib (some sealed) pub_key passphrase keystore_kek ≡ ok priv
  unfolding open_privilege open_sealed key_of_plaintext
  open_parsed sealed pub_key passphrase keystore_kek priv kek f parsed key size opened l same =
      rw (parsed, key, size, opened, l, same, bytes_eq_refl pub_key) refl

  checked_argon :
      (f : SealedKeyFile)
      → f.kdf ≡ kdf_argon2id
      → valid_params f.params ≡ true
      → length f.salt ≡ 16
      → checked f ≡ ok f
  unfolding checked
  checked_argon f k v l = rw (k, v, l) refl

  checked_keystore :
      (f : SealedKeyFile) → f.kdf ≡ kdf_none → f.params ≡ no_params → checked f ≡ ok f
  unfolding checked
  checked_keystore f k without = rw (k, without) refl

  sealed-WellSized :
      (p : Argon2Params) (salt nonce priv kek ad : Bytes)
      → Documented lib
      → p.time < 2 ^ 32
      → p.memory < 2 ^ 32
      → length salt < 256
      → length nonce ≡ 24
      → length priv ≡ 64
      → WellSized p salt nonce (lib.aead_seal kek nonce priv ad)
  sealed-WellSized p salt nonce priv kek ad doc ht hm ls ln lp = record {
    time_fits = ht;
    memory_fits = hm;
    salt_fits = ls;
    nonce_fits = ln;
    ct_fits = omega (arith, doc.length-seal kek nonce priv ad);
  }

  -- With libraries that do what they document, a key that was sealed with a passphrase, or with
  -- the key of a keystore, opens with the same, where the key has 64 bytes, the parameters fit
  -- their fields, the random salt and nonce have their lengths, and the public key beside the file
  -- is the one of the key.
  pub open_privilege-seal :
      (priv pub_key : Bytes) (kdf : ℕ) (p : Argon2Params)
      (passphrase keystore_kek salt nonce sealed : Bytes)
      → Documented lib
      → p.time < 2 ^ 32
      → p.memory < 2 ^ 32
      → length salt ≡ 16
      → length nonce ≡ 24
      → length priv ≡ 64
      → lib.public_half priv ≡ pub_key
      → seal_privilege_key lib priv kdf p passphrase keystore_kek salt nonce ≡ ok sealed
      → open_privilege lib (some sealed) pub_key passphrase keystore_kek ≡ ok priv
  unfolding seal_privilege_key kek_of
  open_privilege-seal priv pub_key kdf p passphrase keystore_kek salt nonce sealed doc ht hm ls ln
        lp same e =
      elim (Bool-cases (kdf == kdf_argon2id)) [
        | inl argon ↦
            let (h₀, e₀) = guarded_ok _ other_failure _ (rw argon at e) in
            let (h₁, e₁) = guarded_ok (not (valid_params p)) other_failure _ e₀ in
            let kek = derive_kek lib passphrase salt p in
            let (h₂, e₂) = guarded_ok _ other_failure _ e₁ in
            let ad = argon_header kdf p salt in
            let ct = lib.aead_seal kek nonce priv ad in
            let parsed =
              ap parse_sealed_key_file (sym (ok_injective e₂))
              ∙ parse-file_of kdf p salt nonce ct
                  (sealed-WellSized p salt nonce priv kek ad doc ht hm (omega arith) ln lp) in
            open_parsed sealed pub_key passphrase keystore_kek priv kek _
              (parsed
                ∙ checked_argon _ ((==_iff kdf kdf_argon2id).0 argon)
                    (true_of_not (valid_params p) h₁) ls)
              (rw argon refl) (doc.length-argon2 passphrase salt p.time p.memory p.lanes 32)
              (doc.open-seal kek nonce priv ad) lp same
        | inr not_argon ↦ elim (Bool-cases (kdf == kdf_none)) [
          | inr unknown ↦ absurd (grind (arith, rw (not_argon, unknown) at e))
          | inl keystore ↦
              let (h₀, e₀) =
                guarded_ok (not (length keystore_kek == kek_len)) no_keystore _
                  (rw (not_argon, keystore) at e) in
              let (h₁, e₁) = guarded_ok (not (length keystore_kek == kek_len)) other_failure _ e₀ in
              let fits = (==_iff (length keystore_kek) kek_len).0 (true_of_not _ h₀) in
              let ad = argon_header kdf no_params [] in
              let ct = lib.aead_seal keystore_kek nonce priv ad in
              let parsed =
                ap parse_sealed_key_file (sym (ok_injective e₁))
                ∙ parse-file_of kdf no_params [] nonce ct (
                    sealed-WellSized no_params [] nonce priv keystore_kek ad doc (omega arith)
                      (omega arith) (omega arith) ln lp) in
              open_parsed sealed pub_key passphrase keystore_kek priv keystore_kek _
                (parsed ∙ checked_keystore _ ((==_iff kdf kdf_none).0 keystore) refl)
                (rw (not_argon, keystore, h₀) refl) fits (doc.open-seal keystore_kek nonce priv ad)
                lp same
        ]
      ]
