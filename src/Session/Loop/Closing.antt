-- ===== src/Session/Loop/Closing.antt =====
-- How a session ends.
use open_air.Prelude.{◌≡◌, ◌⊎◌, inl, inr, refl, Bool, Bytes, Option, none, some, Option-cases, err}
use open_air.Prelude.Int.{ℤ}
use open_air.Prelude.Io.{Reader}
use open_air.Identity.Types.{DeviceId, Peer}
use open_air.Session.Envelope.{
  ErrorCode, EnvelopeError, no_error, end_of_stream, protocol, transport, error_code_of,
  decode_envelope,
}
use open_air.Session.Auth.{AuthProof}
use open_air.Session.Loop.{
  CloseCause, stream_error, Sess, close_with, stream_failed, check_open, code_or, read_turn,
}

-- What ends the session when the control stream fails: the end of the stream is no error.
abbrev cause_of : EnvelopeError → Option CloseCause
cause_of end_of_stream = none
cause_of e = some (stream_error e)

close_with-closed :
    (code : ErrorCode) (cause : Option CloseCause) (s : Sess) (c : ErrorCode × Option CloseCause)
    → s.closed ≡ some c
    → close_with code cause s ≡ s
unfolding close_with
close_with-closed code cause s c e = simp (close_with, e) refl

-- What is recorded of the failure, in a session that was open.
stream_failed-open :
    (e : EnvelopeError) (s : Sess)
    → s.closed ≡ none
    → (stream_failed e s).closed ≡ some (code_or no_error e, cause_of e)
unfolding stream_failed close_with code_or error_code_of
stream_failed-open (protocol code) s h = rw (close_with, h) refl
stream_failed-open end_of_stream s h = rw (close_with, h) refl
stream_failed-open (transport x) s h = rw (close_with, h) refl

stream_failed-closed :
    (e : EnvelopeError) (s : Sess) (c : ErrorCode × Option CloseCause)
    → s.closed ≡ some c
    → stream_failed e s ≡ s
unfolding stream_failed
stream_failed-closed (protocol code) s c h = close_with-closed _ _ s c h
stream_failed-closed end_of_stream s c h = close_with-closed _ _ s c h
stream_failed-closed (transport x) s c h = close_with-closed _ _ s c h

-- A control stream that fails closes a session that is open: with the code of the violation, or with
-- no error where the peer closed the stream or the transport failed, and later calls get the failure
-- as their error, or a plain one where the peer closed the stream. A session that was closed before
-- stays as it was, whatever closes it again.
pub read_turn_closes :
    (verify : Bytes → Bytes → Bytes → Bool) (unmarshal : Bytes → Option AuthProof)
    (look : Option (DeviceId → Option Peer)) (now : ℤ) (s : Sess) (ctrl : Reader)
    (e : EnvelopeError) (code : ErrorCode) (cause : Option CloseCause)
    → decode_envelope ctrl ≡ err e
    → let s' = (read_turn verify unmarshal look now s ctrl).0 in
      (((s.closed ≡ none)
          × (s'.closed ≡ some (code_or no_error e, cause_of e))
          × (check_open s' ≡ some (cause_of e)))
        ⊎ ((c : ErrorCode × Option CloseCause) × (s.closed ≡ some c) × (s' ≡ s)))
      × (close_with code cause s' ≡ s')
unfolding read_turn check_open
read_turn_closes verify unmarshal look now s ctrl e code cause h = elim (Option-cases s.closed) [
  | inl fresh ↦
      let shut = stream_failed-open e s fresh in
      (
        inl (fresh, rw (read_turn, h) shut, rw (read_turn, h) (rw (check_open, shut) refl)),
        rw (read_turn, h) (close_with-closed code cause (stream_failed e s) _ shut),
      )
  | inr (c, before) ↦
      let same = stream_failed-closed e s c before in
      (
        inr (c, before, rw (read_turn, h) same),
        rw (read_turn, h) (rw same (close_with-closed code cause s c before)),
      )
]
