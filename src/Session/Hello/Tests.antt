-- ===== src/Session/Hello/Tests.antt =====
-- A laptop and the phone: the laptop dials, the phone answers, and both have handlers.
use open_air.Prelude.{
  ℕ, ◌≡◌, refl, subst, true, false, List, [], ◌∷◌, ◌++◌, ◌&&◌, ltb, if◌then◌else◌, replicate, Bytes,
  bytes_eq, Option, none, some, ok,
}
use open_air.Prelude.Int.{pos}
use open_air.Prelude.Io.{Reader, eof}
use open_air.Prelude.NumMaps.{find, has_key}
use open_air.Identity.Types.{level_owned, tier_passphrase, DeviceId, Peer}
use open_air.Identity.DeviceId.{derive_device_id, base32_encode}
use open_air.Identity.Samples.{phone, phone_id, phone_key}
use open_air.Session.Convert.{cap_id_to_wire}
use open_air.Session.Envelope.{header, encode_envelope}
use open_air.Session.Auth.Sending.{framed, payload_of, send}
use open_air.Session.Hello.{
  Capability, Hello, HandlerInfo, Config, msg_hello, registered, local_capabilities, negotiate,
  Established, local_hello, authorised,
}
use open_air.Session.Hello.Negotiation.{usable, offers, last_offer, negotiate_lem, negotiate_agree}
use open_air.Session.Hello.Handshake.{Reached, Meets, Reached-Meets, handshake}
use open_air.Session.Hello.Admission.{Attested, new_session-Greeted}

-- The digest that makes the key of the laptop another id.
abbrev digest : Bytes → Bytes
digest key = if bytes_eq key phone_key then replicate 32 0 else replicate 32 255

-- `7777777777777777`
abbrev laptop_id : DeviceId
laptop_id = replicate 16 55

abbrev laptop_key : Bytes
laptop_key = replicate 32 6

abbrev files_handler : HandlerInfo
files_handler = record { declared_level = none; takes_datagrams = false }

abbrev input_handler : HandlerInfo
input_handler = record { declared_level = some level_owned; takes_datagrams = true }

abbrev nobody : Peer
nobody = record phone { device_id = []; identity_public_key = []; level = pos 0; display_name = [] }

abbrev laptop : Config
laptop = record {
  local_id = laptop_id;
  local_tier = some tier_passphrase;
  peer = phone;
  display_name = 108 ∷ [];
  platform = [];
  handlers = (3, some input_handler) ∷ (1, some files_handler) ∷ (5, none) ∷ [];
  initiator = true;
  authorize = none;
  peer_lookup = none;
}

-- The phone does not know who calls; its store has the laptop as Trusted.
abbrev called : Config
called = record {
  local_id = phone_id;
  local_tier = none;
  peer = nobody;
  display_name = 112 ∷ [];
  platform = [];
  handlers = (0, some files_handler) ∷ (1, some files_handler) ∷ (9, some files_handler) ∷ [];
  initiator = false;
  authorize = some (λ p. bytes_eq p.device_id laptop_id);
  peer_lookup = some (λ id. some (record phone { device_id = id }));
}

abbrev toy_marshal : Hello → Option Bytes
toy_marshal m = some m.device_id

abbrev toy_unmarshal : Bytes → Option Hello
toy_unmarshal b =
    if bytes_eq b phone_id then some (local_hello called) else some (local_hello laptop)

abbrev offered : List (Option Capability)
offered = none ∷ some (record { id = pos 2; version = 4 }) ∷ []

some_bytes : (b p : Bytes) → some b ≡ some p → b ≡ p
some_bytes b p h = cc

negotiate_test : find 1 (negotiate ((1, files_handler) ∷ []) offered) ≡ some 1
unfolding last_offer offers has_key find cap_id_to_wire
negotiate_test = negotiate_lem ((1, files_handler) ∷ []) 1 offered

negotiate_agree_example :
    (find 1
        (negotiate (registered laptop.handlers) (local_capabilities (registered called.handlers)))
      ≡ find 1 (
          negotiate (registered called.handlers) (local_capabilities (registered laptop.handlers))))
    × (find 1
          (negotiate (registered laptop.handlers) (local_capabilities (registered called.handlers)))
        ≡ some 1)
unfolding has_key find registered
negotiate_agree_example =
    negotiate_agree (registered laptop.handlers) (registered called.handlers) 1

abbrev laptop_hello : Bytes
laptop_hello = header 1 0 1 16 ++ laptop_id

abbrev phone_hello : Bytes
phone_hello = header 1 0 1 16 ++ phone_id

laptop_sends : send 0 msg_hello (toy_marshal (local_hello laptop)) ≡ ok laptop_hello
unfolding send payload_of framed encode_envelope
laptop_sends = refl

phone_sends : send 0 msg_hello (toy_marshal (local_hello called)) ≡ ok phone_hello
unfolding send payload_of framed encode_envelope
phone_sends = refl

abbrev to_laptop : Reader
to_laptop = record { bytes = phone_hello ++ (7 ∷ []); ends_with = eof }

abbrev to_phone : Reader
to_phone = record { bytes = laptop_hello ++ []; ends_with = eof }

laptop_reaches :
    Reached toy_marshal toy_unmarshal digest laptop called phone_key laptop_hello phone_hello
      (7 ∷ [])
      eof
      (some to_laptop)
      none
unfolding derive_device_id base32_encode bytes_eq
laptop_reaches = record {
  their_key = refl;
  not_pinned_otherwise = refl;
  sent_here = laptop_sends;
  sent_there = phone_sends;
  stream = refl;
}

phone-Reached :
    Reached toy_marshal toy_unmarshal digest called laptop laptop_key phone_hello laptop_hello []
      eof none
      (some to_phone)
unfolding derive_device_id base32_encode bytes_eq
phone-Reached = record {
  their_key = refl;
  not_pinned_otherwise = refl;
  sent_here = phone_sends;
  sent_there = laptop_sends;
  stream = refl;
}

phone_read :
    (p : Bytes)
    → toy_marshal (local_hello called) ≡ some p
    → toy_unmarshal p ≡ some (local_hello called)
unfolding bytes_eq
phone_read p h =
    subst (λ b. toy_unmarshal b ≡ some (local_hello called)) (some_bytes phone_id p h) refl

laptop_read :
    (p : Bytes)
    → toy_marshal (local_hello laptop) ≡ some p
    → toy_unmarshal p ≡ some (local_hello laptop)
unfolding bytes_eq
laptop_read p h =
    subst (λ b. toy_unmarshal b ≡ some (local_hello laptop)) (some_bytes laptop_id p h) refl

handshake_example :
    (s : Established) × (t : Established) × Meets toy_marshal toy_unmarshal digest laptop called
      phone_key laptop_hello
      (7 ∷ [])
      eof
      (some to_laptop)
      none
      s
    × Meets toy_marshal toy_unmarshal digest called laptop laptop_key phone_hello [] eof none
        (some to_phone)
        t
    × ((cap_id : ℕ)
        → (find cap_id s.caps ≡ find cap_id t.caps)
          × (has_key cap_id s.caps ≡ (
              usable (registered laptop.handlers) cap_id
              && usable (registered called.handlers) cap_id
              && ltb cap_id 8)))
handshake_example =
    handshake toy_marshal toy_unmarshal digest laptop called laptop_key phone_key laptop_hello
      phone_hello (7 ∷ []) [] eof eof (some to_laptop) none none (some to_phone) phone_read
      laptop_read laptop_reaches phone-Reached

new_session-Greeted_example :
    (s : Established) × Attested toy_marshal toy_unmarshal digest laptop
      (ok phone_key)
      (some to_laptop)
      none
      s
unfolding authorised
new_session-Greeted_example =
    let (s, m) =
      Reached-Meets toy_marshal toy_unmarshal digest laptop called phone_key laptop_hello
        phone_hello (7 ∷ []) eof (some to_laptop) none phone_read laptop_reaches in
    (
      s,
      new_session-Greeted toy_marshal toy_unmarshal digest laptop (ok phone_key) (some to_laptop)
          none s m.outcome,
    )
