-- ===== src/Session/Auth.antt =====
-- internal/session/auth.go: the proofs that authorise Owned-level operations. A proof comes ahead of
-- its operation and is held; the operation that it verifies for spends it. Signature verification is
-- a parameter, and so is the decoding of a proof. A time is a number of nanoseconds, a difference of
-- times is not cut off as Go cuts it off, and base64 is left out of the keys of `seen`, since it
-- keeps nonces apart. The lock makes each call one step.
pub mod Spend
pub mod SingleUse
pub mod Gate
pub mod Served
pub mod Sending
pub mod Samples
mod Tests
use open_air.Prelude.{
  ℕ, suc, ◌+◌, ◌-◌, ◌*◌, ◌^◌, Bool, true, false, not, ◌&&◌, ◌||◌, List, [], ◌∷◌, ◌++◌, ltb, leb,
  ◌==◌, if◌then◌else◌, length, drop, Bytes, Option, none, some,
}
use open_air.Prelude.Int.{ℤ, pos, negsuc, pos_part, neg_part, leb_ℤ, ltb_ℤ}
use open_air.Prelude.Maps.{Map, lookup, insert}
use open_air.Identity.Types.{TrustLevel, level_trusted, DeviceId, Peer}
use open_air.Identity.OwnedProof.{owned_nonce_len, owned_signing_input}
use open_air.Session.Envelope.{ErrorCode, no_error, protocol_violation, unauthorised, auth_expired}

-- `60 * time.Second`
abbrev pub proof_window : ℕ
proof_window = 60 * 10 ^ 9

abbrev pub max_pending_proofs : ℕ
max_pending_proofs = 8

-- `ed25519.SignatureSize` and `ed25519.PublicKeySize`
abbrev pub signature_size : ℕ
signature_size = 64

abbrev pub public_key_size : ℕ
public_key_size = 32

-- `time.UnixMilli`
abbrev pub unix_milli : ℤ → ℤ
unix_milli (pos n) = pos (n * 10 ^ 6)
unix_milli (negsuc n) = negsuc (n * 10 ^ 6 + (10 ^ 6 - 1))

-- `a.Sub(b) > d`
abbrev pub exceeds : ℤ → ℤ → ℕ → Bool
exceeds a b d = ltb (pos_part b + neg_part a + d) (pos_part a + neg_part b)

pub record AuthProof : Type 0 where
  pub nonce : Bytes
  pub issued_at : ℤ
  pub signature : Bytes

pub record AuthVerifier : Type 0 where
  pub local_id : DeviceId
  pub pending : List AuthProof
  pub seen : Map ℤ

abbrev pub new_auth_verifier : DeviceId → AuthVerifier
new_auth_verifier local_id = record { local_id = local_id; pending = []; seen = [] }

-- `receive`, on what decoding the payload gave.
unfoldable pub receive : AuthVerifier → Option AuthProof → AuthVerifier × ErrorCode
receive a none = (a, protocol_violation)
receive a (some p) =
    let pending =
      if leb max_pending_proofs (length a.pending) then drop 1 a.pending else a.pending in
    if not (length p.nonce == owned_nonce_len) || not (length p.signature == signature_size)
    then (a, unauthorised)
    else (record a { pending = pending ++ (p ∷ []) }, no_error)

abbrev pub in_window : ℤ → ℤ → Bool
in_window now issued = not (exceeds now issued proof_window || exceeds issued now proof_window)

unfoldable pub prune : ℤ → Map ℤ → Map ℤ
prune now [] = []
prune now ((nonce, issued) ∷ seen) =
    let rest = prune now seen in
    if exceeds now (unix_milli issued) proof_window then rest else (nonce, issued) ∷ rest

-- `consume` once a proof is found: whether it counts, or what speaks against it.
unfoldable pub spend : AuthVerifier → ℤ → AuthProof → AuthVerifier × Bool × ErrorCode
spend a now p =
    if not (in_window now (unix_milli p.issued_at))
    then (a, false, auth_expired)
    else elim (lookup p.nonce a.seen) [
      | some issued ↦ (a, false, unauthorised)
      | none ↦ (record a { seen = insert p.nonce p.issued_at a.seen }, true, no_error)
    ]

-- `verify key input signature`
module _ (verify : Bytes → Bytes → Bytes → Bool) where
  unfoldable pub proves : Bytes → DeviceId → ℕ → ℕ → AuthProof → Bool
  proves key local_id cap_id msg_type p =
      elim (owned_signing_input local_id cap_id msg_type p.nonce p.issued_at) [
        | none ↦ false
        | some input ↦ verify key input p.signature
      ]

  -- The first pending proof of the operation, and the others.
  unfoldable pub take_proof :
      Bytes → DeviceId → ℕ → ℕ → List AuthProof → Option (AuthProof × List AuthProof)
  take_proof key local_id cap_id msg_type [] = none
  take_proof key local_id cap_id msg_type (p ∷ ps) =
      let later = take_proof key local_id cap_id msg_type ps in
      if proves key local_id cap_id msg_type p
      then some (p, ps)
      else elim later [ none ↦ none | some (q, qs) ↦ some (q, p ∷ qs) ]

  unfoldable pub consume : AuthVerifier → ℤ → Bytes → ℕ → ℕ → AuthVerifier × Bool × ErrorCode
  consume a now key cap_id msg_type =
      let a' = record a { seen = prune now a.seen } in
      if length a.pending == 0
      then (a', false, no_error)
      else if not (length key == public_key_size)
      then (a', false, unauthorised)
      else elim (take_proof key a.local_id cap_id msg_type a.pending) [
        | none ↦ (a', false, no_error)
        | some (p, pending) ↦ spend (record a' { pending = pending }) now p
      ]

-- A handler that declares no level is treated as Trusted.
abbrev pub required_level : Option TrustLevel → TrustLevel
required_level none = level_trusted
required_level (some level) = level

pub record AuthEvent : Type 0 where
  pub peer : DeviceId
  pub cap_id : ℕ
  pub msg_type : ℕ
  pub is_owned : Bool
  pub allowed : Bool
  pub code : ErrorCode

-- What the session knows of its peer: the record of the Hello, whether it stood in the trust store,
-- and `cfg.PeerLookup`, if there is one.
pub record PeerView : Type 0 where
  pub peer : Peer
  pub have_record : Bool
  pub peer_lookup : Option (DeviceId → Option Peer)

-- The record of the trust store as it is now, where a lookup finds one.
unfoldable pub current_record : PeerView → Option Peer
current_record v = elim v.peer_lookup [
  | none ↦ none
  | some find ↦ if length v.peer.device_id == 0 then none else find v.peer.device_id
]

-- The session's view, brought up to date.
unfoldable pub refreshed : PeerView → PeerView
refreshed v = elim (current_record v) [
  | none ↦ v
  | some now ↦ record v {
    peer = record (v.peer) {
      level = now.level;
      privilege_public_key = now.privilege_public_key;
      granted_capabilities = now.granted_capabilities;
    };
    have_record = true;
  }
]

-- `datagramAllowed`; the event that it reports when the level is too low is left out.
unfoldable pub datagram_allowed : PeerView → Option TrustLevel → Bool
datagram_allowed v declared =
    let r = refreshed v in
    if leb_ℤ (required_level declared) level_trusted
    then true
    else if r.have_record && ltb_ℤ r.peer.level (required_level declared)
    then false
    else r.have_record

abbrev pub event_of : PeerView → ℕ → ℕ → Bool → Bool → ErrorCode → AuthEvent
event_of v cap_id msg_type is_owned allowed code = record {
  peer = v.peer.device_id;
  cap_id = cap_id;
  msg_type = msg_type;
  is_owned = is_owned;
  allowed = allowed;
  code = code;
}

-- `code == 0`
abbrev pub is_no_error : ErrorCode → Bool
is_no_error no_error = true
is_no_error code = false

-- The decision of `authorizeInbound` once `consume` has answered: owned, allowed, what is logged.
unfoldable pub decide :
    PeerView → Option TrustLevel → ℕ → ℕ → Bool → ErrorCode → Bool × Bool × List AuthEvent
decide r declared cap_id msg_type owned code =
    let required = required_level declared in
    if not (is_no_error code)
    then (false, false, event_of r cap_id msg_type false false code ∷ [])
    else if leb_ℤ required level_trusted
    then (owned, true, if owned then event_of r cap_id msg_type true true no_error ∷ [] else [])
    else if r.have_record && ltb_ℤ r.peer.level required
    then (false, false, event_of r cap_id msg_type false false unauthorised ∷ [])
    else if not owned
    then (false, false, event_of r cap_id msg_type false false unauthorised ∷ [])
    else (true, true, event_of r cap_id msg_type true true no_error ∷ [])

unfoldable pub authorize_inbound :
    (Bytes → Bytes → Bytes → Bool)
    → AuthVerifier
    → PeerView
    → ℤ
    → Option TrustLevel
    → ℕ
    → ℕ
    → AuthVerifier × Bool × Bool × List AuthEvent
authorize_inbound verify a v now declared cap_id msg_type =
    let r = refreshed v in
    let (a', owned, code) = consume verify a now r.peer.privilege_public_key cap_id msg_type in
    let (is_owned, allowed, events) = decide r declared cap_id msg_type owned code in
    (a', is_owned, allowed, events)
