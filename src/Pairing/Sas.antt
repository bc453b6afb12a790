-- ===== src/Pairing/Sas.antt =====
-- internal/pairing/sas.go: the transcript that both devices hash, and the six digits their users
-- compare. SHA-256 is a parameter. A nil key is the empty one.
pub mod Binding
mod Tests
use open_air.Prelude.{
  ℕ, zero, suc, ◌+◌, ◌*◌, ◌/◌, ◌%◌, ◌^◌, Bool, true, false, not, ◌&&◌, List, [], ◌∷◌, ◌++◌, ltb,
  ◌==◌, if◌then◌else◌, length, take, drop, replicate, Bytes, bytes_eq, bytes_lt, get_le, Result, ok,
  err, and_then,
}

-- "openair-pair-v1"
abbrev pub sas_context : Bytes
sas_context =
    111 ∷ 112 ∷ 101 ∷ 110 ∷ 97 ∷ 105 ∷ 114 ∷ 45 ∷ 112 ∷ 97 ∷ 105 ∷ 114 ∷ 45 ∷ 118 ∷ 49 ∷ []

abbrev pub nonce_len : ℕ
nonce_len = 32

abbrev pub sas_digits : ℕ
sas_digits = 6

abbrev pub sas_modulus : ℕ
sas_modulus = 1000000

-- `ed25519.PublicKeySize`
abbrev pub public_key_size : ℕ
public_key_size = 32

pub record Party : Type 0 where
  pub identity_key : Bytes
  pub privilege_key : Bytes
  pub nonce : Bytes

pub data SasError : Type 0 where
  bad_key same_identity bad_nonce : SasError

pub check_key : Bytes → Bool → Result SasError Bytes
check_key k allow_absent =
    if length k == 0 && allow_absent
    then ok (replicate public_key_size 0)
    else if not (length k == public_key_size)
    then err bad_key
    else ok k

-- The lower and the higher of two keys.
abbrev pub order : Bytes → Bytes → Bytes × Bytes
order a b = if bytes_lt b a then (b, a) else (a, b)

abbrev pub append_fields : Bytes × Bytes → Bytes × Bytes → Bytes → Bytes → Bytes
append_fields (low_id, high_id) (low_priv, high_priv) nonce_a nonce_b =
    sas_context ++ (low_id ++ (high_id ++ (low_priv ++ (high_priv ++ (nonce_a ++ nonce_b)))))

unfoldable pub transcript : Party → Party → Result SasError Bytes
transcript offerer scanner = and_then (check_key offerer.identity_key false) λ id_a.
    and_then (check_key scanner.identity_key false) λ id_b.
      if bytes_eq id_a id_b
      then err same_identity
      else (and_then (check_key offerer.privilege_key true) λ priv_a.
          and_then (check_key scanner.privilege_key true) λ priv_b.
            if not (length offerer.nonce == nonce_len)
            then err bad_nonce
            else if not (length scanner.nonce == nonce_len)
            then err bad_nonce
            else ok
                (append_fields (order id_a id_b) (order priv_a priv_b) offerer.nonce scanner.nonce))

-- `%0*d`: the last `n` decimal digits, highest first.
abbrev pub digits : ℕ → ℕ → Bytes
digits zero v = []
digits (suc n) v = digits n (v / 10) ++ ((48 + v % 10) ∷ [])

abbrev pub sas_of : Bytes → Bytes
sas_of sum = digits sas_digits (get_le (take 4 sum) % sas_modulus)

pub sas : (Bytes → Bytes) → Party → Party → Result SasError Bytes
unfolding transcript
sas sha256 offerer scanner = and_then (transcript offerer scanner) λ t. ok (sas_of (sha256 t))

pub format_sas : Bytes → Bytes
format_sas s = if not (length s == sas_digits) then s else take 3 s ++ (32 ∷ []) ++ drop 3 s
