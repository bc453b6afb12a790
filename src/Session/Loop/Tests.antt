-- ===== src/Session/Loop/Tests.antt =====
-- A session of this device with the phone, which the store has as Owned: it handles messages of files
-- (1), and of input (3), which asks for Owned. Every signature verifies.
use open_air.Prelude.{
  ℕ, ◌*◌, ◌^◌, ◌≡◌, ◌⊎◌, refl, Bool, true, false, List, [], ◌∷◌, ◌++◌, replicate, Bytes, Option,
  none, some, err,
}
use open_air.Prelude.Int.{ℤ, pos, leb_ℤ}
use open_air.Prelude.Io.{Reader, eof, read_full}
use open_air.Prelude.NumMaps.{find, store, has_key}
use open_air.Identity.Types.{level_trusted, level_owned, Peer}
use open_air.Identity.Samples.{phone, phone_id}
use open_air.Session.Envelope.{
  Envelope, ErrorCode, end_of_stream, no_error, header_error, error_code_of, decode_envelope,
}
use open_air.Session.Auth.{
  AuthProof, new_auth_verifier, current_record, refreshed, datagram_allowed, required_level,
}
use open_air.Session.Auth.Sending.{message_of}
use open_air.Session.Hello.{HandlerInfo, Established}
use open_air.Session.Loop.{
  CloseCause, Inbound, Sess, started, declared_level, view_of, close_with, check_open, code_or,
  read_turn, dispatch, dispatch_datagram,
}
use open_air.Session.Loop.Runs.{Moment, live_view}
use open_air.Session.Loop.StreamGate.{Recorded, dispatch_datagram_lem}
use open_air.Session.Loop.Closing.{read_turn_closes}

abbrev any_signature : Bytes → Bytes → Bytes → Bool
any_signature key input signature = true

abbrev now : ℤ
now = pos (110 * 10 ^ 9)

abbrev owned_phone : Peer
owned_phone = record phone { level = level_owned; privilege_public_key = replicate 32 9 }

abbrev proof : AuthProof
proof = record { nonce = replicate 32 1; issued_at = pos 100000; signature = replicate 64 2 }

-- A proof is a fixed one.
abbrev read_proof : Bytes → Option AuthProof
read_proof b = some proof

abbrev established : Established
established = record {
  handlers =
      (1, record { declared_level = none; takes_datagrams = false })
      ∷ (3, record { declared_level = some level_owned; takes_datagrams = true })
      ∷ [];
  peer = owned_phone;
  have_record = true;
  version = 1;
  caps = (1, 1) ∷ (3, 1) ∷ [];
  auth = new_auth_verifier phone_id;
  sent = [];
  ctrl = record { bytes = []; ends_with = eof };
}

abbrev click : Envelope
click = message_of 3 7 (4 ∷ [])

abbrev clicked : Inbound
clicked = record { env = click; owned = true }

abbrev begun : Sess
begun = started established

abbrev with_proof_held : Sess
with_proof_held = dispatch any_signature read_proof none now begun (message_of 0 6 [])

abbrev with_click : Sess
with_click = dispatch any_signature read_proof none now with_proof_held click

abbrev queued_click : Sess
queued_click = record with_click {
  blocked = none;
  queues = store 3 ([] ++ (clicked ∷ [])) with_click.queues;
}

abbrev after_click : Sess
after_click = record queued_click { queues = store 3 [] queued_click.queues }

-- A proof comes, and then the click that it is for.
abbrev proof_comes : Moment
proof_comes = record { before = begun; env = message_of 0 6 []; look = none; now = now }

abbrev click_comes : Moment
click_comes = record { before = with_proof_held; env = click; look = none; now = now }

abbrev history : List Moment
history = proof_comes ∷ click_comes ∷ []

datagram_for_input : dispatch_datagram any_signature read_proof none now begun (3 ∷ []) ≡ some 3
unfolding dispatch_datagram started find has_key datagram_allowed view_of refreshed current_record
datagram_for_input = refl

dispatch_datagram_lem_example :
    (h : HandlerInfo) × (◌≡◌ {A = ℕ} 3 3)
    × (find 3 begun.handlers ≡ some h)
    × (h.takes_datagrams ≡ true)
    × (has_key 3 begun.caps ≡ true)
    × (false ≡ false)
    × ((leb_ℤ (required_level h.declared_level) level_trusted ≡ true)
        ⊎ Recorded (live_view begun none) h.declared_level)
dispatch_datagram_lem_example =
    dispatch_datagram_lem any_signature read_proof none now begun (3 ∷ []) 3 datagram_for_input

abbrev closed_stream : Reader
closed_stream = record { bytes = []; ends_with = eof }

hung_up : decode_envelope closed_stream ≡ err end_of_stream
unfolding decode_envelope read_full header_error
hung_up = refl

abbrev hung_up_session : Sess
hung_up_session = (read_turn any_signature read_proof none now begun closed_stream).0

read_turn_closes_example :
    (((begun.closed ≡ none)
        × (hung_up_session.closed ≡ some (no_error, none))
        × (check_open hung_up_session ≡ some none))
      ⊎ ((c : ErrorCode × Option CloseCause) × (begun.closed ≡ some c) × (hung_up_session ≡ begun)))
    × (close_with no_error none hung_up_session ≡ hung_up_session)
unfolding code_or error_code_of
read_turn_closes_example =
    read_turn_closes any_signature read_proof none now begun closed_stream end_of_stream no_error
      none hung_up
