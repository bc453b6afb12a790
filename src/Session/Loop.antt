-- ===== src/Session/Loop.antt =====
-- internal/session/session.go: a session once its loops run. `dispatch` is what the control loop does
-- with a message, up to the queue that it waits for room in; a capability's queue is served in turn;
-- `dispatchDatagram` and `serveStream` take what comes outside the control stream. Decoding a proof,
-- verifying a signature, the clock, the trust store as it is at the time, and the handlers are
-- parameters. The calls that other streams make between two of one stream, and logging, are left out.
pub mod Runs
pub mod Order
pub mod Steady
pub mod Gated
pub mod Streams
pub mod StreamGate
pub mod Closing
mod Tests
use open_air.Prelude.{
  ℕ, Bool, true, false, not, ◌&&◌, ◌||◌, List, [], ◌∷◌, ◌++◌, leb, ltb, ◌==◌, if◌then◌else◌, get_or,
  length, Bytes, Option, none, some, Result, ok, err,
}
use open_air.Prelude.Int.{ℤ}
use open_air.Prelude.Io.{Reader}
use open_air.Prelude.NumMaps.{NumMap, find, store, has_key}
use open_air.Identity.Types.{TrustLevel, DeviceId, Peer}
use open_air.Session.Envelope.{
  Envelope, ErrorCode, EnvelopeError, no_error, protocol_violation, unauthorised,
  capability_unavailable, resource_exhausted, end_of_stream, protocol, transport, error_code_of,
  decode_envelope,
}
use open_air.Session.Auth.{
  AuthProof, AuthVerifier, AuthEvent, PeerView, is_no_error, receive, authorize_inbound,
  datagram_allowed,
}
use open_air.Session.Auth.Sending.{msg_auth_proof}
use open_air.Session.Hello.{HandlerInfo, Established}

abbrev pub cap_queue_depth : ℕ
cap_queue_depth = 64

-- `inbound`
pub record Inbound : Type 0 where
  pub env : Envelope
  pub owned : Bool

-- What ended a session: an error of the control stream, or a code that one side closed with.
pub data CloseCause : Type 0 where
  stream_error : EnvelopeError → CloseCause
  closed_with : ErrorCode → CloseCause

-- `sess`. `blocked` is the message that the control loop waits to put on its queue; `closed` is none
-- while the session is open, and holds `closeErr` afterwards, with the code that the connection was
-- closed with.
pub record Sess : Type 0 where
  pub handlers : NumMap HandlerInfo
  pub peer : Peer
  pub have_record : Bool
  pub caps : NumMap ℕ
  pub queues : NumMap (List Inbound)
  pub blocked : Option (ℕ × Inbound)
  pub auth : AuthVerifier
  pub events : List AuthEvent
  pub closed : Option (ErrorCode × Option CloseCause)

unfoldable pub start_queues : NumMap HandlerInfo → NumMap ℕ → NumMap (List Inbound)
start_queues [] caps = []
start_queues ((cap_id, h) ∷ hs) caps =
    let rest = start_queues hs caps in
    if not (cap_id == 0) && not (has_key cap_id caps) then rest else store cap_id [] rest

unfoldable pub started : Established → Sess
started e = record {
  handlers = e.handlers;
  peer = e.peer;
  have_record = e.have_record;
  caps = e.caps;
  queues = start_queues e.handlers e.caps;
  blocked = none;
  auth = e.auth;
  events = [];
  closed = none;
}

-- `v1.ControlMessageType_name`
abbrev pub known_control_msg_type : ℕ → Bool
known_control_msg_type t = ltb 0 t && leb t 19

-- The level that the handler of a capability declares.
unfoldable pub declared_level : NumMap HandlerInfo → ℕ → Option TrustLevel
declared_level hs cap_id = elim (find cap_id hs) [ none ↦ none | some h ↦ h.declared_level ]

unfoldable pub view_of : Sess → Option (DeviceId → Option Peer) → PeerView
view_of s look = record { peer = s.peer; have_record = s.have_record; peer_lookup = look }

-- What `closeOnce` does the first time.
unfoldable pub close_with : ErrorCode → Option CloseCause → Sess → Sess
close_with code cause s = elim s.closed [
  | some c ↦ s
  | none ↦ record s {
    closed = some (
      code,
      elim cause [
        | some e ↦ some e
        | none ↦ if is_no_error code then none else some (closed_with code)
      ],
    );
  }
]

-- What `readLoop` does when the control stream fails.
unfoldable pub stream_failed : EnvelopeError → Sess → Sess
stream_failed end_of_stream s = close_with no_error none s
stream_failed (protocol code) s = close_with code (some (stream_error (protocol code))) s
stream_failed (transport x) s = close_with no_error (some (stream_error (transport x))) s

-- The end of `dispatch`: the message goes into the channel of its capability, and none while that is
-- full.
unfoldable pub put_waiting : Sess → Option Sess
put_waiting s = elim s.blocked [
  | none ↦ none
  | some (c, i) ↦ elim (find c s.queues) [
    | none ↦ none
    | some q ↦
        if ltb (length q) cap_queue_depth
        then some (record s { blocked = none; queues = store c (q ++ (i ∷ [])) s.queues })
        else none
  ]
]

-- What `serveQueue` gives to the capability's handler next, and none while the channel is empty.
unfoldable pub take_next : ℕ → Sess → Option (Inbound × Sess)
take_next c s = elim (find c s.queues) [
  | none ↦ none
  | some [] ↦ none
  | some (i ∷ q) ↦ some (i, record s { queues = store c q s.queues })
]

-- `SendDatagram` and `OpenStream` begin with this: the error of a session that is closed.
unfoldable pub check_open : Sess → Option (Option CloseCause)
check_open s = elim s.closed [ none ↦ none | some (code, cause) ↦ some cause ]

-- A failure of a capability's handler: the type of the message is unknown to it, or an error, with
-- what `ErrorCodeOf` says of it.
pub data HandlerError : Type 0 where
  unknown_msg_type : HandlerError
  handler_failed : ErrorCode → Bool → HandlerError

-- The code that a stream is reset with once its handler returned.
pub finish_stream : Option HandlerError → Option ErrorCode
finish_stream none = none
finish_stream (some unknown_msg_type) = some capability_unavailable
finish_stream (some (handler_failed code true)) = some code
finish_stream (some (handler_failed code false)) = some resource_exhausted

-- The code of an error, or another where it has none.
unfoldable pub code_or : ErrorCode → EnvelopeError → ErrorCode
code_or default e =
    let (code, is_protocol) = error_code_of e in if is_protocol then code else default

module _ (verify : Bytes → Bytes → Bytes → Bool) (unmarshal : Bytes → Option AuthProof)
    (look : Option (DeviceId → Option Peer)) (now : ℤ) where
  -- A message for a queue that is there.
  unfoldable pub admit : Sess → Envelope → Sess
  admit s env =
      let (a', owned, allowed, events) =
        authorize_inbound verify s.auth (view_of s look) now (declared_level s.handlers env.cap_id)
          env.cap_id env.msg_type in
      let message : Inbound = record { env = env; owned = owned } in
      record s {
        auth = a';
        events = s.events ++ events;
        blocked = if allowed then some (env.cap_id, message) else s.blocked;
      }

  unfoldable pub dispatch : Sess → Envelope → Sess
  dispatch s env =
      if (env.cap_id == 0) && (env.msg_type == msg_auth_proof)
      then record s { auth = (receive s.auth (unmarshal env.payload)).0 }
      else if (env.cap_id == 0) && not (known_control_msg_type env.msg_type)
      then s
      else if not (env.cap_id == 0) && not (has_key env.cap_id s.caps)
      then s
      else elim (find env.cap_id s.queues) [ none ↦ s | some q ↦ admit s env ]

  -- One turn of `readLoop`, with what is left on the control stream.
  unfoldable pub read_turn : Sess → Reader → Sess × Reader
  read_turn s ctrl = elim (decode_envelope ctrl) [
    | ok (env, ctrl') ↦ (dispatch s env, ctrl')
    | err e ↦ (stream_failed e s, ctrl)
  ]

  -- The capability whose `ServeDatagram` gets the bytes.
  unfoldable pub dispatch_datagram : Sess → Bytes → Option ℕ
  dispatch_datagram s b = elim (find (get_or b 0 0) s.handlers) [
    | none ↦ none
    | some h ↦
        if (length b == 0) || not h.takes_datagrams || not (has_key (get_or b 0 0) s.caps)
        then none
        else if not (datagram_allowed (view_of s look) h.declared_level)
        then none
        else some (get_or b 0 0)
  ]

  -- The operation of a stream, its envelope read: the code to reset with, or what the handler gets.
  unfoldable pub admit_operation :
      Sess → AuthVerifier → Envelope → AuthVerifier × List AuthEvent × Result ErrorCode Inbound
  admit_operation s a env =
      if (env.cap_id == 0) || not (has_key env.cap_id s.caps) || not (has_key env.cap_id s.handlers)
      then (a, [], err capability_unavailable)
      else let (a', owned, allowed, events) =
          authorize_inbound verify a (view_of s look) now (declared_level s.handlers env.cap_id)
            env.cap_id env.msg_type in
        (a', events, if allowed then ok (record { env = env; owned = owned }) else err unauthorised)

  unfoldable pub operation_on :
      Sess
      → AuthVerifier
      → Envelope
      → Reader
      → AuthVerifier × List AuthEvent × Result ErrorCode (Inbound × Reader)
  operation_on s a env st =
      let (a', events, r) = admit_operation s a env in
      (a', events, elim r [ err code ↦ err code | ok i ↦ ok (i, st) ])

  -- What follows a proof on a stream.
  unfoldable pub after_proof :
      Sess
      → AuthVerifier
      → Reader
      → AuthVerifier × List AuthEvent × Result ErrorCode (Inbound × Reader)
  after_proof s a st = elim (decode_envelope st) [
    | err e ↦ (a, [], err (code_or protocol_violation e))
    | ok (env, st') ↦
        if env.cap_id == 0 then (a, [], err protocol_violation) else operation_on s a env st'
  ]

  -- A proof, and what follows it.
  unfoldable pub with_proof :
      Sess → Bytes → Reader → AuthVerifier × List AuthEvent × Result ErrorCode (Inbound × Reader)
  with_proof s payload st =
      let (a', code) = receive s.auth (unmarshal payload) in
      if is_no_error code then after_proof s a' st else (a', [], err code)

  -- `serveStream` up to the call of the handler.
  unfoldable pub admit_stream :
      Sess → Reader → AuthVerifier × List AuthEvent × Result ErrorCode (Inbound × Reader)
  admit_stream s st = elim (decode_envelope st) [
    | err e ↦ (s.auth, [], err (code_or protocol_violation e))
    | ok (env, st') ↦
        if (env.cap_id == 0) && (env.msg_type == msg_auth_proof)
        then with_proof s env.payload st'
        else operation_on s s.auth env st'
  ]

  -- `serveStream`, with the code that the stream is reset with, if it is. `serve` is the handler's
  -- `ServeStream`.
  unfoldable pub serve_stream :
      (Inbound → Reader → Option HandlerError) → Sess → Reader → Sess × Option ErrorCode
  serve_stream serve s st =
      let (a', events, r) = admit_stream s st in
      let s' : Sess = record s { auth = a'; events = s.events ++ events } in
      elim r [ err code ↦ (s', some code) | ok (i, st') ↦ (s', finish_stream (serve i st')) ]
