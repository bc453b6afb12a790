-- ===== src/Session/Hello.antt =====
-- internal/session/session.go: `newSession` up to the start of its loops, with `exchangeHello`,
-- `localCapabilities` and `negotiate`. The protobuf codec, SHA-256 and the transport are parameters:
-- the key that the peer's TLS certificate holds, and the streams that opening and accepting one
-- gave. Cancellation and the texts of errors are left out.
pub mod Negotiation
pub mod Admission
pub mod Handshake
mod Tests
use open_air.Prelude.{
  ℕ, suc, min, ◌+◌, Bool, true, false, not, ◌&&◌, ◌||◌, List, [], ◌∷◌, leb, ltb, ◌==◌,
  if◌then◌else◌, length, Bytes, bytes_eq, Option, none, some, Result, ok, err,
}
use open_air.Prelude.Int.{ℤ}
use open_air.Prelude.Io.{Reader}
use open_air.Prelude.NumMaps.{NumMap, find, store, has_key}
use open_air.Identity.Types.{TrustLevel, ProtectionTier, tier_none, DeviceId, Peer}
use open_air.Identity.DeviceId.{derive_device_id}
use open_air.Session.Convert.{
  cap_id_to_wire, cap_id_from_wire, protection_tier_to_wire, protection_tier_from_wire,
}
use open_air.Session.Envelope.{
  Envelope, ErrorCode, EnvelopeError, protocol_violation, key_mismatch, decode_envelope,
}
use open_air.Session.Auth.{AuthVerifier, new_auth_verifier}
use open_air.Session.Auth.Sending.{SendError, send}

-- `v1.Capability`
pub record Capability : Type 0 where
  pub id : ℤ
  pub version : ℕ

-- `v1.Hello`; an entry of its list may be nil.
pub record Hello : Type 0 where
  pub proto_version : ℕ
  pub device_id : DeviceId
  pub display_name : Bytes
  pub platform : Bytes
  pub capabilities : List (Option Capability)
  pub protection_tier : ℤ

-- What the session asks of a `Handler`: the level it declares, if it does, and whether it is also a
-- `DatagramHandler`.
pub record HandlerInfo : Type 0 where
  pub declared_level : Option TrustLevel
  pub takes_datagrams : Bool

-- `Config`, with the local identity's device id and its protection tier, if it reports one. A
-- handler may be nil. The callbacks of events and of the path's class are left out.
pub record Config : Type 0 where
  pub local_id : DeviceId
  pub local_tier : Option ProtectionTier
  pub peer : Peer
  pub display_name : Bytes
  pub platform : Bytes
  pub handlers : NumMap (Option HandlerInfo)
  pub initiator : Bool
  pub authorize : Option (Peer → Bool)
  pub peer_lookup : Option (DeviceId → Option Peer)

abbrev pub protocol_version : ℕ
protocol_version = 1

abbrev pub local_cap_version : ℕ
local_cap_version = 1

-- `v1.ControlMessageType_CONTROL_MESSAGE_TYPE_HELLO`
abbrev pub msg_hello : ℕ
msg_hello = 1

-- The handlers of the configuration that are not nil.
unfoldable pub registered : NumMap (Option HandlerInfo) → NumMap HandlerInfo
registered [] = []
registered ((id, none) ∷ hs) = registered hs
registered ((id, some h) ∷ hs) = (id, h) ∷ registered hs

-- The keys of the handlers, without 0.
unfoldable pub advertised_ids : NumMap HandlerInfo → List ℕ
advertised_ids [] = []
advertised_ids ((id, h) ∷ hs) = let rest = advertised_ids hs in if id == 0 then rest else id ∷ rest

-- `sort.Ints`; a key that stands in the list twice is kept once, as in a map.
unfoldable pub insert_id : ℕ → List ℕ → List ℕ
insert_id id [] = id ∷ []
insert_id id (j ∷ js) =
    let rest = insert_id id js in
    if ltb id j then id ∷ j ∷ js else if id == j then j ∷ js else j ∷ rest

unfoldable pub sort_ids : List ℕ → List ℕ
sort_ids [] = []
sort_ids (id ∷ ids) = insert_id id (sort_ids ids)

-- The loop that builds the list; an id without an enum value is skipped.
unfoldable pub advertise : List ℕ → List (Option Capability)
advertise [] = []
advertise (id ∷ ids) =
    let rest = advertise ids in
    elim (cap_id_from_wire id) [
      | none ↦ rest
      | some enum_id ↦ some (record { id = enum_id; version = local_cap_version }) ∷ rest
    ]

unfoldable pub local_capabilities : NumMap HandlerInfo → List (Option Capability)
local_capabilities hs = advertise (sort_ids (advertised_ids hs))

-- One turn of the loop of `negotiate`.
unfoldable pub negotiate_one : NumMap HandlerInfo → Option Capability → NumMap ℕ → NumMap ℕ
negotiate_one hs none out = out
negotiate_one hs (some c) out = elim (cap_id_to_wire c.id) [
  | none ↦ out
  | some cap_id ↦
      if cap_id == 0
      then out
      else if not (has_key cap_id hs)
      then out
      else store cap_id (min local_cap_version c.version) out
]

unfoldable pub negotiate_onto : NumMap HandlerInfo → List (Option Capability) → NumMap ℕ → NumMap ℕ
negotiate_onto hs [] out = out
negotiate_onto hs (c ∷ cs) out = negotiate_onto hs cs (negotiate_one hs c out)

unfoldable pub negotiate : NumMap HandlerInfo → List (Option Capability) → NumMap ℕ
negotiate hs remote = negotiate_onto hs remote []

pub data SessionError : Type 0 where
  protocol_error : ErrorCode → SessionError
  no_control_stream not_authorised : SessionError
  sending_hello : SendError → SessionError
  awaiting_hello : EnvelopeError → SessionError

-- What the handshake leaves in the session, with what is still to come on the control stream.
pub record Established : Type 0 where
  pub handlers : NumMap HandlerInfo
  pub peer : Peer
  pub have_record : Bool
  pub version : ℕ
  pub caps : NumMap ℕ
  pub auth : AuthVerifier
  pub sent : Bytes
  pub ctrl : Reader

abbrev pub local_protection_tier : Config → ProtectionTier
local_protection_tier cfg = elim cfg.local_tier [ none ↦ tier_none | some t ↦ t ]

abbrev pub local_hello : Config → Hello
local_hello cfg = record {
  proto_version = protocol_version;
  device_id = cfg.local_id;
  display_name = cfg.display_name;
  platform = cfg.platform;
  capabilities = local_capabilities (registered cfg.handlers);
  protection_tier = protection_tier_to_wire (local_protection_tier cfg);
}

-- `if x != "" { … = x }`
abbrev pub unless_empty : Bytes → Bytes → Bytes
unless_empty [] old = old
unless_empty (b ∷ bs) old = b ∷ bs

-- The record that the Hello and the TLS key give.
unfoldable pub claimed_peer : Peer → Hello → DeviceId → Bytes → Peer
claimed_peer p remote derived peer_key = record p {
  device_id = derived;
  identity_public_key = peer_key;
  display_name = unless_empty remote.display_name p.display_name;
  platform = unless_empty remote.platform p.platform;
  protection_tier = protection_tier_from_wire remote.protection_tier;
}

unfoldable pub with_stored : Peer → Peer → Peer
with_stored p stored = record p {
  privilege_public_key = stored.privilege_public_key;
  level = stored.level;
  granted_capabilities = stored.granted_capabilities;
  auth_policy = stored.auth_policy;
  token_granted_at = stored.token_granted_at;
  display_name = unless_empty p.display_name stored.display_name;
}

-- The record joined with the trust store's, and whether there is one.
unfoldable pub joined : Config → Peer → DeviceId → Peer × Bool
joined cfg p derived = elim cfg.peer_lookup [
  | none ↦ (p, ltb 0 (length cfg.peer.privilege_public_key))
  | some look ↦ elim (look derived) [
    | none ↦ (p, false)
    | some stored ↦ (with_stored p stored, true)
  ]
]

-- `cfg.Authorize`
unfoldable pub authorised : Config → Established → Result SessionError Established
authorised cfg s = elim cfg.authorize [
  | none ↦ ok s
  | some admits ↦ if admits s.peer then ok s else err not_authorised
]

abbrev pub control_stream : Config → Option Reader → Option Reader → Option Reader
control_stream cfg opened accepted = if cfg.initiator then opened else accepted

-- Where the record of the configuration pins another key, or another id.
abbrev pub pins_another : Config → DeviceId → Bytes → Bool
pins_another cfg derived peer_key =
    (ltb 0 (length cfg.peer.identity_public_key)
      && not (bytes_eq cfg.peer.identity_public_key peer_key))
    || (ltb 0 (length cfg.peer.device_id) && not (bytes_eq cfg.peer.device_id derived))

-- What is done with the Hello of the peer.
unfoldable pub accept_hello :
    Config → DeviceId → Bytes → Bytes → Hello → Reader → Result SessionError Established
accept_hello cfg derived peer_key sent remote ctrl =
    let hs = registered cfg.handlers in
    let (p, have_record) = joined cfg (claimed_peer cfg.peer remote derived peer_key) derived in
    if not (bytes_eq remote.device_id derived)
    then err (protocol_error protocol_violation)
    else ok (record {
      handlers = hs;
      peer = p;
      have_record = have_record;
      version = min protocol_version remote.proto_version;
      caps = negotiate hs remote.capabilities;
      auth = new_auth_verifier cfg.local_id;
      sent = sent;
      ctrl = ctrl;
    })

-- The first message of the peer: it has to be a Hello.
unfoldable pub read_hello : (Bytes → Option Hello) → Envelope → Result SessionError Hello
read_hello unmarshal env =
    if not (env.cap_id == 0) || not (env.msg_type == msg_hello)
    then err (protocol_error protocol_violation)
    else elim (unmarshal env.payload) [
      | none ↦ err (protocol_error protocol_violation)
      | some remote ↦ ok remote
    ]

module _ (marshal : Hello → Option Bytes) (unmarshal : Bytes → Option Hello) where
  unfoldable pub exchange_hello :
      Config → DeviceId → Bytes → Reader → Result SessionError Established
  exchange_hello cfg derived peer_key ctrl = elim (send 0 msg_hello (marshal (local_hello cfg))) [
    | err e ↦ err (sending_hello e)
    | ok sent ↦ elim (decode_envelope ctrl) [
      | err e ↦ err (awaiting_hello e)
      | ok (env, ctrl') ↦ elim (read_hello unmarshal env) [
        | err e ↦ err e
        | ok remote ↦ accept_hello cfg derived peer_key sent remote ctrl'
      ]
    ]
  ]

  module _ (sha256 : Bytes → Bytes) where
    -- `peer_key` is what `PeerPublicKey` returned.
    unfoldable pub new_session :
        Config
        → Result ErrorCode Bytes
        → Option Reader
        → Option Reader
        → Result SessionError Established
    new_session cfg (err code) opened accepted = err (protocol_error code)
    new_session cfg (ok peer_key) opened accepted =
        let derived = derive_device_id sha256 peer_key in
        if pins_another cfg derived peer_key
        then err (protocol_error key_mismatch)
        else elim (control_stream cfg opened accepted) [
          | none ↦ err no_control_stream
          | some ctrl ↦ elim (exchange_hello cfg derived peer_key ctrl) [
            | err e ↦ err e
            | ok s ↦ authorised cfg s
          ]
        ]
