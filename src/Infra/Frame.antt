-- ===== src/Infra/Frame.antt =====
-- internal/infra/frame.go: `WriteMessage`, `ReadMessage` and `ReadInto`.
-- A message's protobuf coding is not in the repository: `marshal` and `unmarshal` are parameters.
-- A writer is the bytes of the one `Write` call.
pub mod Laws
mod Tests
use open_air.Prelude.{
  ℕ, ◌+◌, ◌*◌, ◌^◌, Bool, Option, none, some, ◌++◌, ◌&&◌, not, ltb, ◌==◌, if◌then◌else◌, length,
  slice, Bytes, put_le, get_le, Result, ok, err,
}
use open_air.Prelude.Io.{Reader, ReadError, Read, full, cut, read_full}

abbrev pub header_size : ℕ
header_size = 6

abbrev pub max_message_size : ℕ
max_message_size = 64 * 2 ^ 10

-- `InfraMessageType_INFRA_MESSAGE_TYPE_ERROR`
abbrev pub msg_error : ℕ
msg_error = 9

pub data FrameError : Type 0 where
  marshal_failed : FrameError
  over_cap : ℕ → FrameError
  io : ReadError → FrameError
  malformed_error_reply : FrameError
  server_error : Bytes → FrameError
  unexpected_type : (want got : ℕ) → FrameError
  unmarshal_failed : FrameError

-- What is written once the payload is known.
pub frame : ℕ → Bytes → Result FrameError Bytes
frame msg_type payload =
    if ltb max_message_size (length payload)
    then err (over_cap (length payload))
    else ok (put_le 2 msg_type ++ (put_le 4 (length payload) ++ payload))

pub write_message {ℓ} :
    {M : Type ℓ} → (marshal : M → Option Bytes) → ℕ → M → Result FrameError Bytes
unfolding frame
write_message marshal msg_type msg = elim (marshal msg) [
  | none ↦ err marshal_failed
  | some payload ↦ frame msg_type payload
]

read_payload : ℕ → ℕ → Reader → Result FrameError (ℕ × Bytes × Reader)
read_payload msg_type n r =
    if ltb max_message_size n then err (over_cap n) else elim (read_full n r) [
      | full payload r' ↦ ok (msg_type, payload, r')
      | cut k e ↦ err (io e)
    ]

pub read_message : Reader → Result FrameError (ℕ × Bytes × Reader)
unfolding read_payload
read_message r = elim (read_full header_size r) [
  | cut n e ↦ err (io e)
  | full hdr r' ↦ read_payload (get_le (slice 0 2 hdr)) (get_le (slice 2 6 hdr)) r'
]

-- `error_text` reads the message of an `InfraError`, `unmarshal` the message that is wanted.
module _ {ℓ} {M : Type ℓ} (error_text : Bytes → Option Bytes) (unmarshal : Bytes → Option M) where
  accept : ℕ → ℕ → Bytes → Result FrameError M
  accept want msg_type payload =
      if msg_type == msg_error && not (want == msg_error)
      then elim (error_text payload) [
        | none ↦ err malformed_error_reply
        | some text ↦ err (server_error text)
      ]
      else if not (msg_type == want)
      then err (unexpected_type want msg_type)
      else elim (unmarshal payload) [ none ↦ err unmarshal_failed | some m ↦ ok m ]

  pub read_into : ℕ → Reader → Result FrameError (M × Reader)
  unfolding accept
  read_into want r = elim (read_message r) [
    | err e ↦ err e
    | ok (msg_type, payload, r') ↦ elim (accept want msg_type payload) [
      | err e ↦ err e
      | ok m ↦ ok (m, r')
    ]
  ]
