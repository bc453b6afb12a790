-- ===== src/Infra/Frame/Tests.antt =====
-- Runs of the framing, and its theorems at concrete messages.
use open_air.Prelude.{
  ◌≡◌, refl, [], ◌∷◌, ◌++◌, Bytes, put_le, get_le, slice, Option, some, ok, err, arith,
}
use open_air.Prelude.Io.{Reader, eof, read_full}
use open_air.Infra.Frame.{write_message, read_message, read_into, server_error, over_cap}
use open_air.Infra.Frame.Laws.{
  IsFrameRead, read_message-write_message, read_message-IsFrameRead, read_message_over_cap,
  read_into-ok, read_into_refused,
}

-- A message is its encoding here.
abbrev marshal : Bytes → Option Bytes
marshal m = some m

abbrev reply : Reader
reply = record { bytes = 9 ∷ 0 ∷ 2 ∷ 0 ∷ 0 ∷ 0 ∷ 5 ∷ 6 ∷ 1 ∷ []; ends_with = eof }

abbrev after_reply : Reader
after_reply = record { bytes = 1 ∷ []; ends_with = eof }

write_reply : write_message marshal 9 (5 ∷ 6 ∷ []) ≡ ok (9 ∷ 0 ∷ 2 ∷ 0 ∷ 0 ∷ 0 ∷ 5 ∷ 6 ∷ [])
unfolding write_message put_le
write_reply = refl

read_reply : read_message reply ≡ ok (9, 5 ∷ 6 ∷ [], after_reply)
unfolding read_message read_full get_le slice
read_reply = refl

read_message_write_message_test :
    (p : Bytes) × (marshal (5 ∷ 6 ∷ []) ≡ some p) × (read_message reply ≡ ok (9, p, after_reply))
read_message_write_message_test =
    read_message-write_message marshal 9 (5 ∷ 6 ∷ []) (1 ∷ []) eof (omega arith) write_reply

read_message_isframeread_test : IsFrameRead reply after_reply 9 (5 ∷ 6 ∷ [])
read_message_isframeread_test = read_message-IsFrameRead reply after_reply 9 (5 ∷ 6 ∷ []) read_reply

too_long_frame :
    read_message (record { bytes = put_le 2 3 ++ (put_le 4 70000 ++ []); ends_with = eof })
    ≡ err (over_cap 70000)
too_long_frame = read_message_over_cap 3 70000 [] eof (omega arith) (omega arith)

read_into-reply : read_into marshal marshal 9 reply ≡ ok (5 ∷ 6 ∷ [], after_reply)
unfolding read_into read_message read_full get_le slice
read_into-reply = refl

reply_matches :
    (p : Bytes) × (read_message reply ≡ ok (9, p, after_reply)) × (marshal p ≡ some (5 ∷ 6 ∷ []))
reply_matches = read_into-ok marshal marshal 9 reply read_into-reply

refused_by_server : read_into marshal marshal 2 reply ≡ err (server_error (5 ∷ 6 ∷ []))
refused_by_server =
    read_into_refused marshal marshal 2 reply after_reply (5 ∷ 6 ∷ []) (5 ∷ 6 ∷ []) (omega arith)
      read_reply refl
