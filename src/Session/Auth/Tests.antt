-- ===== src/Session/Auth/Tests.antt =====
-- Two devices: this one, and a paired phone that is recorded as Owned.
use open_air.Session.Auth.Samples.{
  toy_verify, privilege_key, toy_sign, asking, kept_key, unlocked, fresh_nonce, made,
  stays_unlocked, signs,
}
use open_air.Prelude.{
  ℕ, ◌^◌, ◌*◌, ◌≡◌, ◌⊎◌, ◌≢◌, refl, ap, subst, Bool, true, false, List, [], ◌∷◌, replicate, drop,
  put_le, Bytes, bytes_eq, none, some,
}
use open_air.Prelude.Int.{ℤ, pos}
use open_air.Prelude.Maps.{lookup, insert, remove}
use open_air.Identity.Types.{level_owned, Peer}
use open_air.Identity.DeviceId.{valid, all_in_alphabet}
use open_air.Identity.Samples.{phone, phone_id}
use open_air.Identity.OwnedProof.{signed_fields, owned_signing_input}
use open_air.Session.Envelope.{ErrorCode, no_error}
use open_air.Session.Auth.{
  AuthProof, AuthVerifier, AuthEvent, event_of, PeerView, receive, prune, spend, proves, take_proof,
  consume, current_record, refreshed, datagram_allowed, decide, authorize_inbound,
}
use open_air.Prelude.{◌*◌, ◌^◌, drop, length, put_le, ok, bytes_eq_refl, arith}
use open_air.Identity.Unlock.{privilege_of, drop_expired, expire_locked, sign_owned}
use open_air.Session.Auth.Served.{consume-sign_owned}
use open_air.Session.Auth.{new_auth_verifier}
use open_air.Prelude.{◌++◌, Option}
use open_air.Prelude.Io.{eof}
use open_air.Identity.Unlock.{locked_state}
use open_air.Session.Envelope.{header, encode_envelope}
use open_air.Session.Auth.Sending.{
  framed, payload_of, send, frames_of, send_owned, send_owned_if_unlocked,
}
use open_air.Session.Auth.Sending.Delivery.{Delivered, send_owned-Delivered}
use open_air.Session.Auth.Spend.{Spent}
use open_air.Session.Auth.SingleUse.{Later, stays, receives, single_use}
use open_air.Session.Auth.Gate.{Standing, authorize_inbound-Spent, decide_reported, demoted_lem}

-- A proof for message 7 of capability 3, at 100 seconds.
abbrev proof : ℕ → AuthProof
proof n = record {
  nonce = replicate 32 n;
  issued_at = pos 100000;
  signature = drop 11 (signed_fields phone_id 3 7 (replicate 32 n) (pos 100000));
}

abbrev now : ℤ
now = pos (110 * 10 ^ 9)

abbrev holding : AuthVerifier
holding = record { local_id = phone_id; pending = proof 1 ∷ proof 2 ∷ []; seen = [] }

abbrev spent_once : AuthVerifier
spent_once = record {
  local_id = phone_id;
  pending = proof 2 ∷ [];
  seen = (replicate 32 1, pos 100000) ∷ [];
}

abbrev replayed : AuthVerifier
replayed = record spent_once { pending = proof 2 ∷ proof 1 ∷ [] }

abbrev spent_twice : AuthVerifier
spent_twice = record {
  local_id = phone_id;
  pending = proof 1 ∷ [];
  seen = (replicate 32 2, pos 100000) ∷ (replicate 32 1, pos 100000) ∷ [];
}

first_use :
    ◌≡◌ {A = AuthVerifier × Bool × ErrorCode}
      (consume toy_verify holding now privilege_key 3 7)
      (spent_once, true, no_error)
unfolding consume take_proof proves spend owned_signing_input valid all_in_alphabet prune lookup
    insert remove bytes_eq put_le
first_use = refl

replay_comes : receive spent_once (some (proof 1)) ≡ (replayed, no_error)
unfolding receive put_le
replay_comes = refl

replay-Later : Later toy_verify spent_once now replayed now
replay-Later =
    subst (λ b. Later toy_verify spent_once now b now) (ap (λ t. t.0) replay_comes)
      (receives spent_once now (some (proof 1)) stays)

second_use :
    ◌≡◌ {A = AuthVerifier × Bool × ErrorCode}
      (consume toy_verify replayed now privilege_key 3 7)
      (spent_twice, true, no_error)
unfolding consume take_proof proves spend owned_signing_input valid all_in_alphabet prune lookup
    insert remove bytes_eq put_le
second_use = refl

-- A replayed proof is held, and the second operation is let through by the other proof.
single_use_example :
    (p : AuthProof) × (q : AuthProof) × Spent toy_verify holding now privilege_key 3 7 p spent_once
    × Spent toy_verify replayed now privilege_key 3 7 q spent_twice
    × ((bytes_eq p.nonce q.nonce ≡ false) ⊎ (p.issued_at ≢ q.issued_at))
single_use_example =
    single_use toy_verify holding spent_once replayed spent_twice now now now privilege_key
      privilege_key 3 3 7 7 no_error no_error first_use replay-Later refl second_use

abbrev owned_phone : Peer
owned_phone = record phone { level = level_owned; privilege_public_key = privilege_key }

-- The session learnt a Trusted phone; the store has it as Owned by now.
abbrev session_view : PeerView
session_view = record {
  peer = phone;
  have_record = true;
  peer_lookup = some (λ id. some owned_phone);
}

let_through :
    ◌≡◌ {A = AuthVerifier × Bool × Bool × List AuthEvent}
      (authorize_inbound toy_verify holding session_view now (some level_owned) 3 7)
      (spent_once, true, true, event_of session_view 3 7 true true no_error ∷ [])
unfolding authorize_inbound decide refreshed current_record consume take_proof proves spend
    owned_signing_input valid all_in_alphabet prune lookup insert remove bytes_eq put_le
let_through = refl

authorize_inbound-Spent_example :
    ((p : AuthProof) × (key : Bytes) × Spent toy_verify holding now key 3 7 p spent_once
      × Standing session_view (some level_owned) key)
    × (true ≡ true)
authorize_inbound-Spent_example =
    authorize_inbound-Spent toy_verify holding spent_once session_view now (some level_owned) 3 7
      true (event_of session_view 3 7 true true no_error ∷ []) refl let_through

-- The session learnt an Owned phone, and the user has taken that back.
abbrev stale_view : PeerView
stale_view = record {
  peer = owned_phone;
  have_record = true;
  peer_lookup = some (λ id. some phone);
}

found_demoted : current_record stale_view ≡ some phone
unfolding current_record
found_demoted = refl

demoted_lem_example :
    ((authorize_inbound toy_verify holding stale_view now (some level_owned) 3 7).2 ≡ false)
    × (datagram_allowed stale_view (some level_owned) ≡ false)
demoted_lem_example =
    demoted_lem toy_verify holding stale_view phone now (some level_owned) 3 7 refl found_demoted
      refl

abbrev unknown_view : PeerView
unknown_view = record { peer = phone; have_record = false; peer_lookup = none }

unproven_request :
    (decide unknown_view (some level_owned) 3 7 false no_error ≡ (false, true, []))
    ⊎ ((c : ErrorCode) × (decide unknown_view (some level_owned) 3 7 false no_error
          ≡ (false, false, event_of unknown_view 3 7 false false c ∷ [])))
    ⊎ (decide unknown_view (some level_owned) 3 7 false no_error
        ≡ (true, true, event_of unknown_view 3 7 true true no_error ∷ []))
unproven_request = decide_reported unknown_view (some level_owned) 3 7 false no_error

length-made : length made ≡ 64
unfolding put_le
length-made = refl

nothing_seen : lookup fresh_nonce (prune (pos (110 * 10 ^ 9)) []) ≡ none
unfolding lookup prune
nothing_seen = refl

abbrev asked : AuthProof
asked = record { nonce = fresh_nonce; issued_at = pos 100000; signature = made }

consume_sign_owned_test :
    ((receive (new_auth_verifier phone_id) (some asked)).1 ≡ no_error)
    × ((consume toy_verify
          (receive (new_auth_verifier phone_id) (some asked)).0
          (pos (110 * 10 ^ 9))
          privilege_key
          3
          7).1
        ≡ true)
consume_sign_owned_test =
    consume-sign_owned toy_sign toy_verify asking unlocked kept_key (new_auth_verifier phone_id)
      privilege_key 3 7 (100 * 10 ^ 9) (110 * 10 ^ 9) fresh_nonce (pos 100000) made
      (λ input. bytes_eq_refl (drop 11 input)) stays_unlocked signs length-made refl refl
      nothing_seen (omega arith) (omega arith)

abbrev toy_marshal : AuthProof → Option Bytes
toy_marshal p = some p.nonce

abbrev message : Option Bytes
message = some (4 ∷ 2 ∷ [])

abbrev sent : Bytes
sent = (header 1 0 6 32 ++ fresh_nonce) ++ (header 1 3 7 2 ++ (4 ∷ 2 ∷ []))

sends :
    (send_owned toy_marshal toy_sign asking phone_id 3 7 message fresh_nonce
      (100 * 10 ^ 9)
      unlocked).1
    ≡ ok sent
unfolding send_owned frames_of payload_of framed encode_envelope sign_owned expire_locked
    drop_expired privilege_of lookup bytes_eq owned_signing_input valid all_in_alphabet
sends = refl

-- A device that is locked sends the message alone.
sends_plainly :
    (send_owned_if_unlocked toy_marshal toy_sign asking phone_id 3 7 message fresh_nonce
      (100 * 10 ^ 9)
      locked_state).1
    ≡ ok (false, header 1 3 7 2 ++ (4 ∷ 2 ∷ []))
unfolding send_owned_if_unlocked send send_owned frames_of payload_of framed encode_envelope
    sign_owned expire_locked drop_expired privilege_of lookup
sends_plainly = refl

send_owned-Delivered_example :
    (p : AuthProof) × ((sign_owned toy_sign asking phone_id 3 7 fresh_nonce
        (100 * 10 ^ 9)
        unlocked).1
      ≡ ok (p.issued_at, p.signature))
    × (p.nonce ≡ fresh_nonce)
    × Delivered toy_marshal sent p 3 7 message (9 ∷ []) eof
send_owned-Delivered_example =
    send_owned-Delivered toy_marshal toy_sign asking phone_id 3 7 message fresh_nonce (100 * 10 ^ 9)
      unlocked sent (9 ∷ []) eof (omega arith) sends
