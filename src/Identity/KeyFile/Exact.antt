-- ===== src/Identity/KeyFile/Exact.antt =====
-- What the parser accepts of the bytes on disk.
use mathlib.Core.Path.{ap₂}
use open_air.Prelude.{
  true_of_not, ℕ, zero, suc, ◌+◌, ◌-◌, ◌%◌, ◌≤◌, ◌<◌, ◌≡◌, refl, sym, ap, subst, ◌∙◌, Bool-cases,
  [], ◌∷◌, ◌++◌, ltb, ◌==◌, ==_iff, length, take, drop, get_or, slice, All, Bytes, IsByte,
  bytes_eq→eq, put_le, get_le, put_le-get_le, slice_first, slice-slice, slice-drop, take-slice,
  length-slice, All-slice, take-append-drop, ok, guarded_ok, ok_injective, length-drop, inl, inr,
  arith,
}
use open_air.Identity.KeyFile.{
  kdf_none, kdf_argon2id, Argon2Params, SealedKeyFile, key_file_format, key_file_magic,
  key_file_version, header_fixed_len, argon_header, file_of, checked, parse_sealed_key_file,
}

byte_at : (b : Bytes) (i : ℕ) → All IsByte b → get_or b i 0 < 256
byte_at [] i h = omega arith
byte_at (x ∷ b) zero h = h.0
byte_at (x ∷ b) (suc i) h = byte_at b i h.1

-- A field of four bytes, read and written again.
word_back :
    (i : ℕ) (b : Bytes)
    → All IsByte b
    → i + 4 ≤ length b
    → put_le 4 (get_le (slice i (i + 4) b)) ≡ slice i (i + 4) b
word_back i b bytes h =
    let four : length (slice i (i + 4) b) ≡ 4 = length-slice i (i + 4) b h ∙ omega arith in
    ap (λ n. put_le n (get_le (slice i (i + 4) b))) (sym four)
    ∙ put_le-get_le (slice i (i + 4) b) (All-slice IsByte i (i + 4) b bytes)

module _ (b : Bytes) (sl : ℕ) (bytes : All IsByte b) (long : 18 + sl + 24 + 4 ≤ length b) where
  abbrev off : ℕ
  off = 18 + sl

  abbrev read_params : Argon2Params
  read_params = record {
    time = get_le (slice 8 12 b);
    memory = get_le (slice 12 16 b);
    lanes = get_or b 16 0;
  }

  -- The bytes up to the end of the salt are the header of what was read from them.
  header_back :
      take 6 b ≡ key_file_magic
      → get_or b 6 0 ≡ key_file_version
      → get_or b 17 0 ≡ sl
      → sl < 256
      → take off b ≡ argon_header (get_or b 7 0) read_params (slice 18 off b)
  header_back magic version e17 small =
      let l_salt : length (slice 18 off b) % 256 ≡ sl =
        omega (arith, length-slice 18 off b (omega arith)) in
      let s17 : slice 17 off b ≡ length (slice 18 off b) % 256 ∷ slice 18 off b =
        slice_first 17 off b 0 (omega arith) (omega arith)
        ∙ ap (λ n. n ∷ slice 18 off b) (e17 ∙ sym l_salt) in
      let s16 = slice_first 16 off b 0 (omega arith) (omega arith) ∙ ap (◌∷◌ (get_or b 16 0)) s17 in
      let s12 =
        sym (slice-slice 12 16 off b (omega arith) (omega arith))
        ∙ ap₂ ◌++◌ (sym (word_back 12 b bytes (omega arith))) s16 in
      let s8 =
        sym (slice-slice 8 12 off b (omega arith) (omega arith))
        ∙ ap₂ ◌++◌ (sym (word_back 8 b bytes (omega arith))) s12 in
      let s7 = slice_first 7 off b 0 (omega arith) (omega arith) ∙ ap (◌∷◌ (get_or b 7 0)) s8 in
      let s6 = slice_first 6 off b 0 (omega arith) (omega arith) ∙ ap₂ ◌∷◌ version s7 in
      sym (take-slice 6 off b (omega arith)) ∙ ap₂ ◌++◌ magic s6

  -- The whole file, from its parts.
  file_back :
      length b - (off + 24 + 4) ≡ get_le (slice (off + 24) (off + 24 + 4) b)
      → file_of (take off b) (slice off (off + 24) b) (drop (off + 24 + 4) b) ≡ b
  file_back size =
      let ct = drop (off + 24 + 4) b in
      let l_ct : length ct ≡ get_le (slice (off + 24) (off + 24 + 4) b) =
        length-drop (off + 24 + 4) b ∙ size in
      let length_field : put_le 4 (length ct) ≡ slice (off + 24) (off + 24 + 4) b =
        ap (put_le 4) l_ct ∙ word_back (off + 24) b bytes long in
      ap (λ s. take off b ++ (slice off (off + 24) b ++ (s ++ ct))) length_field
      ∙ ap (λ r. take off b ++ (slice off (off + 24) b ++ r))
          (slice-drop (off + 24) (off + 24 + 4) b (omega arith))
      ∙ ap (λ r. take off b ++ r) (slice-drop off (off + 24) b (omega arith))
      ∙ take-append-drop off b

checked_same : (f g : SealedKeyFile) → checked f ≡ ok g → f ≡ g
unfolding checked
checked_same f g e = elim (Bool-cases (f.kdf == kdf_argon2id)) [
  | inl argon ↦ ok_injective (guarded_ok _ _ _ (rw argon at e)).1
  | inr not_argon ↦ elim (Bool-cases (f.kdf == kdf_none)) [
    | inl none ↦ ok_injective (guarded_ok _ _ _ (rw (not_argon, none) at e)).1
    | inr unknown ↦ absurd (grind (arith, rw (not_argon, unknown) at e))
  ]
]

-- Only a file of the format is accepted: its bytes are the very bytes of its fields, with nothing
-- left over; what is handed to the cipher as associated data is the header of the kdf, the
-- parameters and the salt that were read; and the fields pass the last check.
pub parse_sealed_key_file-exact :
    (b : Bytes) (f : SealedKeyFile)
    → All IsByte b
    → parse_sealed_key_file b ≡ ok f
    → (b ≡ file_of f.ad f.nonce f.ct)
      × (f.ad ≡ argon_header f.kdf f.params f.salt)
      × (checked f ≡ ok f)
unfolding parse_sealed_key_file
parse_sealed_key_file-exact b f bytes e =
    let (h₀, e₀) = guarded_ok (ltb (length b) header_fixed_len) key_file_format _ e in
    let (h₁, e₁) = guarded_ok _ key_file_format _ e₀ in
    let (h₂, e₂) = guarded_ok _ key_file_format _ e₁ in
    let (h₃, e₃) = guarded_ok (ltb (length b) (18 + get_or b 17 0 + 24 + 4)) key_file_format _ e₂ in
    let (h₄, e₄) = guarded_ok _ key_file_format _ e₃ in
    let same = checked_same _ f e₄ in
    let sl = get_or b 17 0 in
    let off' = 18 + sl in
    let magic : take 6 b ≡ key_file_magic =
      bytes_eq→eq (take 6 b) key_file_magic (true_of_not _ h₁) in
    let version : get_or b 6 0 ≡ key_file_version =
      (==_iff (get_or b 6 0) key_file_version).0 (true_of_not _ h₂) in
    let long : 18 + sl + 24 + 4 ≤ length b = ground (arith, h₃) in
    let size =
      (==_iff (length b - (off' + 24 + 4)) (get_le (slice (off' + 24) (off' + 24 + 4) b))).0
        (true_of_not _ h₄) in
    let ad : take off' b
        ≡ argon_header (get_or b 7 0) (read_params b sl bytes long) (slice 18 off' b) =
      header_back b sl bytes long magic version refl (byte_at b 17 bytes) in
    let whole = sym (file_back b sl bytes long size) in
    (
      subst (λ g. b ≡ file_of g.ad g.nonce g.ct) same whole,
      subst (λ g. g.ad ≡ argon_header g.kdf g.params g.salt) same ad,
      subst (λ g. checked g ≡ ok f) same e₄,
    )
