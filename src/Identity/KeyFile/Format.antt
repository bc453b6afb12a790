-- ===== src/Identity/KeyFile/Format.antt =====
-- The format of the container: what is written is read back, and nothing else is.
use mathlib.Core.List.{append_assoc}
use open_air.Prelude.{
  ℕ, ◌+◌, ◌-◌, ◌%◌, ◌^◌, ◌<◌, ◌≡◌, refl, sym, ap, ◌∙◌, true, false, [], ◌∷◌, ◌++◌, ltb, ◌==◌,
  ==_iff, length, take, drop, get_or, slice, Bytes, bytes_eq_refl, put_le, get_le, length-put_le,
  get_le-put_le, length-append, slice_at, take_at, drop_at, arith,
}
use open_air.Identity.KeyFile.{
  Argon2Params, key_file_magic, key_file_version, header_fixed_len, argon_header, file_of, checked,
  parse_sealed_key_file,
}

-- The first eighteen bytes, with the length of the salt.
abbrev fixed_part : ℕ → Argon2Params → ℕ → Bytes
fixed_part kdf p n =
    key_file_magic
    ++ (key_file_version ∷ kdf ∷ (put_le 4 p.time ++ (put_le 4 p.memory ++ (p.lanes ∷ n ∷ []))))

-- Parsing, by what the bytes have at the places of the format.
parse_parts :
    (b salt nonce ct ad : Bytes) (kdf : ℕ) (p : Argon2Params) (sl : ℕ)
    → length b ≡ 18 + sl + 24 + 4 + length ct
    → take 6 b ≡ key_file_magic
    → get_or b 6 0 ≡ key_file_version
    → get_or b 7 0 ≡ kdf
    → get_le (slice 8 12 b) ≡ p.time
    → get_le (slice 12 16 b) ≡ p.memory
    → get_or b 16 0 ≡ p.lanes
    → get_or b 17 0 ≡ sl
    → slice 18 (18 + sl) b ≡ salt
    → slice (18 + sl) (18 + sl + 24) b ≡ nonce
    → get_le (slice (18 + sl + 24) (18 + sl + 24 + 4) b) ≡ length ct
    → drop (18 + sl + 24 + 4) b ≡ ct
    → take (18 + sl) b ≡ ad
    → parse_sealed_key_file b
      ≡ checked (record { kdf = kdf; params = p; salt = salt; nonce = nonce; ct = ct; ad = ad })
unfolding parse_sealed_key_file
parse_parts b salt nonce ct ad kdf p sl size magic version e7 e8 e12 e16 e17 es en ec ect ead =
    let long : ltb (length b) header_fixed_len ≡ false = ground (arith, size) in
    let whole : ltb (length b) (18 + sl + 24 + 4) ≡ false = ground (arith, size) in
    let rest : length b - (18 + sl + 24 + 4) ≡ length ct = omega arith in
    let fits : (length ct == length ct) ≡ true = (==_iff (length ct) (length ct)).1 refl in
    rw
      (
        e17,
        long,
        magic,
        bytes_eq_refl key_file_magic,
        version,
        whole,
        rest,
        ec,
        fits,
        e7,
        e8,
        e12,
        e16,
        es,
        en,
        ect,
        ead,
      )
      refl

-- A file's fields, each of the size that the format gives it.
pub record WellSized (p : Argon2Params) (salt nonce ct : Bytes) : Type 0 where
  pub time_fits : p.time < 2 ^ 32
  pub memory_fits : p.memory < 2 ^ 32
  pub salt_fits : length salt < 256
  pub nonce_fits : length nonce ≡ 24
  pub ct_fits : length ct < 2 ^ 32

length-argon_header :
    (kdf : ℕ) (p : Argon2Params) (salt : Bytes)
    → length (argon_header kdf p salt) ≡ 18 + length salt
length-argon_header kdf p salt = omega (
  arith,
  length-append (put_le 4 p.time) (put_le 4 p.memory ++ (p.lanes ∷ length salt % 256 ∷ salt)),
  length-append (put_le 4 p.memory) (p.lanes ∷ length salt % 256 ∷ salt),
  length-put_le 4 p.time,
  length-put_le 4 p.memory,
)

-- Parsing what was laid out: the fields come back, and the last check decides.
pub parse-file_of :
    (kdf : ℕ) (p : Argon2Params) (salt nonce ct : Bytes)
    → WellSized p salt nonce ct
    → parse_sealed_key_file (file_of (argon_header kdf p salt) nonce ct)
      ≡ checked (record {
        kdf = kdf;
        params = p;
        salt = salt;
        nonce = nonce;
        ct = ct;
        ad = argon_header kdf p salt;
      })
unfolding slice put_le
parse-file_of kdf p salt nonce ct w =
    let ad = argon_header kdf p salt in
    let size = put_le 4 (length ct) in
    let tail = nonce ++ (size ++ ct) in
    let l_ad = length-argon_header kdf p salt in
    let l_tail = length-append nonce (size ++ ct) in
    let n_fits = w.nonce_fits in
    let s_fits = w.salt_fits in
    let salt_byte : length salt % 256 ≡ length salt = omega arith in
    let whole : length (ad ++ tail) ≡ 18 + length salt + 24 + 4 + length ct =
      omega (arith, length-append salt tail, l_tail, n_fits) in
    let l_an : length (ad ++ nonce) ≡ 18 + length salt + 24 =
      omega (arith, length-append salt nonce, n_fits) in
    let regroup : ad ++ tail ≡ (ad ++ nonce) ++ (size ++ ct) =
      sym (append_assoc ad nonce (size ++ ct)) in
    let l_ans : length ((ad ++ nonce) ++ size) ≡ 18 + length salt + 24 + 4 =
      omega (arith, length-append (ad ++ nonce) size, l_an) in
    let regroup' : ad ++ tail ≡ ((ad ++ nonce) ++ size) ++ ct =
      regroup ∙ sym (append_assoc (ad ++ nonce) size ct) in
    parse_parts (ad ++ tail) salt nonce ct ad kdf p (length salt) whole refl refl refl
      (get_le-put_le 4 p.time w.time_fits) (get_le-put_le 4 p.memory w.memory_fits) refl salt_byte
      (slice_at 18 (18 + length salt) (fixed_part kdf p (length salt % 256)) salt tail refl refl)
      (slice_at (18 + length salt) (18 + length salt + 24) ad nonce (size ++ ct) l_ad (omega arith))
      (ap (λ b. get_le (slice (18 + length salt + 24) (18 + length salt + 24 + 4) b)) regroup
        ∙ ap get_le (
            slice_at (18 + length salt + 24) (18 + length salt + 24 + 4) (ad ++ nonce) size ct l_an
              refl)
        ∙ get_le-put_le 4 (length ct) w.ct_fits)
      (ap (drop (18 + length salt + 24 + 4)) regroup'
        ∙ drop_at (18 + length salt + 24 + 4) ((ad ++ nonce) ++ size) ct l_ans)
      (take_at (18 + length salt) ad tail l_ad)
