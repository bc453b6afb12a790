-- ===== src/Session/Loop/Streams/Tests.antt =====
-- A stream that an unlocked device opens at the phone for an operation of input, which asks for
-- Owned.
use open_air.Prelude.{
  zero, suc, bytes_eq_refl, ◌*◌, ◌^◌, ◌≡◌, inr, refl, subst, Bool, true, [], ◌∷◌, ◌++◌, length,
  replicate, take, drop, take-append, drop-append, put_le, Bytes, bytes_eq, Option, none, some, ok,
  arith,
}
use open_air.Prelude.Int.{ℤ, pos, negsuc}
use open_air.Prelude.Io.{Reader, eof}
use open_air.Prelude.Maps.{lookup}
use open_air.Prelude.NumMaps.{find, has_key}
use open_air.Identity.Types.{level_owned}
use open_air.Identity.DeviceId.{valid, all_in_alphabet}
use open_air.Identity.Samples.{phone, phone_id}
use open_air.Identity.OwnedProof.{owned_signing_input}
use open_air.Session.Envelope.{header, encode_envelope}
use open_air.Session.Auth.{AuthProof, new_auth_verifier, prune, current_record, refreshed}
use open_air.Session.Auth.Samples.{
  privilege_key, asking, kept_key, unlocked, fresh_nonce, stays_unlocked,
}
use open_air.Identity.Unlock.{drop_expired, expire_locked, privilege_of, sign_owned}
use open_air.Session.Auth.Sending.{message_of, framed, open_owned_stream}
use open_air.Session.Loop.{Inbound, Sess, declared_level, view_of, admit_stream}
use open_air.Session.Loop.StreamGate.{StreamGate}
use open_air.Session.Loop.Streams.{High, admit_stream-open_owned_stream}

-- Every signature is the same 64 bytes.
abbrev fixed_sign : Bytes → Bytes → Bytes
fixed_sign key input = replicate 64 2

abbrev fixed_verify : Bytes → Bytes → Bytes → Bool
fixed_verify key input signature = bytes_eq signature (replicate 64 2)

-- A codec of proofs: the length of the nonce, the nonce, the time, and the signature.
abbrev time_bytes : ℤ → Bytes
time_bytes (pos n) = 0 ∷ n ∷ []
time_bytes (negsuc n) = 1 ∷ n ∷ []

abbrev toy_marshal : AuthProof → Option Bytes
toy_marshal p = some (length p.nonce ∷ (p.nonce ++ (time_bytes p.issued_at ++ p.signature)))

abbrev with_time : Bytes → Bytes → Option AuthProof
with_time nonce (zero ∷ n ∷ signature) =
    some (record { nonce = nonce; issued_at = pos n; signature = signature })
with_time nonce (suc zero ∷ n ∷ signature) =
    some (record { nonce = nonce; issued_at = negsuc n; signature = signature })
with_time nonce bs = none

abbrev toy_unmarshal : Bytes → Option AuthProof
toy_unmarshal [] = none
toy_unmarshal (n ∷ bs) = with_time (take n bs) (drop n bs)

timed :
    (nonce signature : Bytes) (t : ℤ)
    → with_time nonce (time_bytes t ++ signature)
      ≡ some (record { nonce = nonce; issued_at = t; signature = signature })
timed nonce signature (pos n) = refl
timed nonce signature (negsuc n) = refl

some_bytes : (b p : Bytes) → some b ≡ some p → b ≡ p
some_bytes b p h = cc

read_time : (p : AuthProof) → with_time p.nonce (time_bytes p.issued_at ++ p.signature) ≡ some p
read_time p = timed p.nonce p.signature p.issued_at

toy_codec : (p : AuthProof) (b : Bytes) → toy_marshal p ≡ some b → toy_unmarshal b ≡ some p
toy_codec p b h =
    subst (λ x. toy_unmarshal x ≡ some p) (some_bytes _ b h)
      (rw
        (
          take-append p.nonce (time_bytes p.issued_at ++ p.signature),
          drop-append p.nonce (time_bytes p.issued_at ++ p.signature),
        )
        (read_time p))

-- The session of the phone with the unlocked device, which it has as Owned.
abbrev asked : Sess
asked = record {
  handlers = (3, record { declared_level = some level_owned; takes_datagrams = true }) ∷ [];
  peer = record phone { level = level_owned; privilege_public_key = privilege_key };
  have_record = true;
  caps = (3, 1) ∷ [];
  queues = [];
  blocked = none;
  auth = new_auth_verifier phone_id;
  events = [];
  closed = none;
}

abbrev proof_frame : Bytes
proof_frame = header 1 0 6 99 ++ (32 ∷ (fresh_nonce ++ (0 ∷ 100000 ∷ replicate 64 2)))

opens :
    (open_owned_stream toy_marshal fixed_sign asking phone_id 3 7 fresh_nonce
      (100 * 10 ^ 9)
      unlocked).1
    ≡ ok proof_frame
unfolding open_owned_stream framed encode_envelope sign_owned expire_locked drop_expired
    privilege_of lookup bytes_eq owned_signing_input valid all_in_alphabet put_le
opens = refl

abbrev operation : Bytes
operation = header 1 3 7 1 ++ (4 ∷ [])

operates : encode_envelope (message_of 3 7 (4 ∷ [])) ≡ ok operation
unfolding encode_envelope
operates = refl

not_seen : lookup fresh_nonce (prune (pos (110 * 10 ^ 9)) []) ≡ none
unfolding lookup prune
not_seen = refl

abbrev opened : Reader
opened = record { bytes = proof_frame ++ (operation ++ (8 ∷ [])); ends_with = eof }

abbrev on_stream : Inbound
on_stream = record { env = message_of 3 7 (4 ∷ []); owned = true }

negotiated : has_key 3 asked.caps ≡ true
unfolding has_key find
negotiated = refl

handled : has_key 3 asked.handlers ≡ true
unfolding has_key find
handled = refl

high : High (refreshed (view_of asked none)) (declared_level asked.handlers 3)
unfolding refreshed current_record view_of declared_level find
high = inr refl

key_size : length (refreshed (view_of asked none)).peer.privilege_public_key ≡ 32
unfolding refreshed current_record view_of
key_size = refl

verifies :
    (input : Bytes)
    → fixed_verify
        (refreshed (view_of asked none)).peer.privilege_public_key
        input
        (fixed_sign kept_key.key input)
      ≡ true
verifies input = bytes_eq_refl (replicate 64 2)

admit_stream-open_owned_stream_example :
    (admit_stream fixed_verify toy_unmarshal none (pos (110 * 10 ^ 9)) asked opened).2
    ≡ ok (on_stream, record { bytes = 8 ∷ []; ends_with = eof })
admit_stream-open_owned_stream_example =
    admit_stream-open_owned_stream fixed_verify toy_unmarshal toy_marshal fixed_sign none asked
      asking unlocked kept_key 3 7 (100 * 10 ^ 9) (110 * 10 ^ 9) fresh_nonce proof_frame operation
      (4 ∷ []) (8 ∷ []) eof toy_codec verifies (λ key input. refl) stays_unlocked opens operates
      (omega arith) key_size refl not_seen (omega arith) (omega arith) refl negotiated handled high
