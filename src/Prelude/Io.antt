-- ===== src/Prelude/Io.antt =====
-- Go's `io.Reader` and `io.ReadFull`: a reader is the bytes that are still to come, and what ends
-- them.
use Prim.Native.Nat.{ℕ, zero, suc, ◌<◌, ◌≤◌}
use mathlib.Core.Path.{◌≡◌, refl}
use mathlib.Core.Logic.{◌⊎◌, inl, inr}
use mathlib.Core.List.{◌++◌}
use native.Mathlib.Omega.{arith}
use open_air.Prelude.Tests.{leb, if◌then◌else◌}
use open_air.Prelude.Lists.{
  length, length-append, length-take, take, drop, take-append, drop-append, take-append-drop,
}
use open_air.Prelude.ByteSlices.{Bytes}

-- `other` is a failure of the transport, with a code that no caller looks into.
pub data ReadError : Type 0 where
  eof unexpected_eof : ReadError
  other : ℕ → ReadError

pub record Reader : Type 0 where
  pub bytes : Bytes
  pub ends_with : ReadError

pub data Read : Type 0 where
  full : Bytes → Reader → Read
  cut : (n : ℕ) → ReadError → Read

-- The error of a read that got `n` bytes and wanted more: an end of stream after some bytes is
-- unexpected.
abbrev pub end_error : ℕ → ReadError → ReadError
end_error zero eof = eof
end_error (suc n) eof = unexpected_eof
end_error n e = e

unfoldable pub read_full : ℕ → Reader → Read
read_full n r =
    if leb n (length r.bytes)
    then full (take n r.bytes) (record r { bytes = drop n r.bytes })
    else cut (length r.bytes) (end_error (length r.bytes) r.ends_with)

-- A reader that begins with the wanted bytes gives them up, and keeps the rest.
pub read_full-append :
    (xs ys : Bytes) (e : ReadError)
    → read_full (length xs) (record { bytes = xs ++ ys; ends_with = e })
      ≡ full xs (record { bytes = ys; ends_with = e })
unfolding read_full
read_full-append xs ys e = ground (arith, length-append xs ys, take-append xs ys, drop-append xs ys)

pub read_full_short :
    (n : ℕ) (xs : Bytes) (e : ReadError)
    → length xs < n
    → read_full n (record { bytes = xs; ends_with = e }) ≡ cut (length xs) (end_error (length xs) e)
unfolding read_full
read_full_short n xs e h = ground arith

pub Read-cases :
    (x : Read)
    → ((bs : Bytes) × (r : Reader) × (x ≡ full bs r)) ⊎ ((n : ℕ) × (e : ReadError) × (x ≡ cut n e))
Read-cases (full bs r) = inl (bs, r, refl)
Read-cases (cut n e) = inr (n, e, refl)

-- What a read of `n` bytes that succeeds has taken.
pub read_full-ok :
    (n : ℕ) (r : Reader) {bs : Bytes} {r' : Reader}
    → read_full n r ≡ full bs r'
    → (n ≤ length r.bytes)
      × (length bs ≡ n)
      × (r.bytes ≡ bs ++ r'.bytes)
      × (r'.ends_with ≡ r.ends_with)
unfolding read_full
read_full-ok n r h = ground (arith, length-take n r.bytes, take-append-drop n r.bytes)
