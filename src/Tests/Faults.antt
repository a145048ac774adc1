-- ===== src/Tests/Faults.antt =====
-- Replies that are refused, at a disk of two-byte sectors.
use open_vix_disk_lib.Prelude.{◌≡◌, refl, arith, false, List, [], ◌∷◌, ◌++◌, take, drop, blit}
use open_vix_disk_lib.Error.{ok, err, protocol_error, aio_error, unexpected_reply}
use open_vix_disk_lib.Struct.{Bytes, le}
use open_vix_disk_lib.Conn.{Arrival, piece}
use open_vix_disk_lib.Conn.Receive.{Delivers}
use open_vix_disk_lib.AioMsg
use open_vix_disk_lib.Aio.{aio_roundtrip}
use open_vix_disk_lib.Aio.Frames.{frame, hdr_bytes}
use open_vix_disk_lib.Aio.Refused.{aio_roundtrip_refused}
use open_vix_disk_lib.Read.{readinto}
use open_vix_disk_lib.Read.Reassembly.{Accepted, CanRead, replies, request, placed}
use open_vix_disk_lib.Read.Refused.{readinto_refused}
use open_vix_disk_lib.Write.{write}
use open_vix_disk_lib.Write.Fragments.{expected}
use open_vix_disk_lib.Write.Sent.{CanWrite, store}
use open_vix_disk_lib.Write.Refused.{write_refused}
use open_vix_disk_lib.Tests.{stored, stored-IsLawful, conn_with, disk_with}
use open_vix_disk_lib.Tests.Disk.{last_byte, contents, buffer, fragments-Accepted}

-- An ERROR frame with two bytes, under another operation id, and a byte behind it.
abbrev error_frame : Bytes
error_frame = frame AioMsg.error 3 (8 ∷ 9 ∷ []) (22 ∷ [])

abbrev refusing : List Arrival
refusing = piece (take 17 error_frame) ∷ piece (drop 17 error_frame) ∷ []

refusing-Delivers : Delivers refusing error_frame
unfolding le
refusing-Delivers = record { pieces = (tt, (tt, tt)); bytes = refl }

aio_roundtrip_refused_example :
    (rest : List Arrival) × (aio_roundtrip AioMsg.open_session (1 ∷ []) [] 0 (disk_with refusing)
      ≡ (
        err (protocol_error (aio_error 3 2)),
        record (disk_with refusing) {
          op_id = 8;
          sock = record (conn_with rest) { sent = frame AioMsg.open_session 7 (1 ∷ []) [] ∷ [] };
        },
      ))
    × Delivers rest (22 ∷ [])
aio_roundtrip_refused_example =
    aio_roundtrip_refused (disk_with refusing) AioMsg.open_session (1 ∷ []) [] AioMsg.error 3 0
      (8 ∷ 9 ∷ []) (22 ∷ []) (protocol_error (aio_error 3 2))
      (record { is_open = refl; no_faults = refl }) (omega arith) (omega arith) (omega arith)
      (omega arith) (omega arith) (omega arith) refl refusing-Delivers

-- The acknowledgement of another request.
abbrev other_reply : List Arrival
other_reply = piece (frame AioMsg.io 6 [] []) ∷ []

other_reply-Delivers : Delivers other_reply (frame AioMsg.io 6 [] [])
unfolding le
other_reply-Delivers = record { pieces = (tt, tt); bytes = refl }

other_reply-CanWrite : CanWrite (disk_with other_reply) 1 2 contents
other_reply-CanWrite = record {
  some = omega arith;
  size = refl;
  buffer = omega arith;
  can_send = record { is_open = refl; no_faults = refl };
  op_id_fits = omega arith;
  handle_fits = omega arith;
  offset_fits = omega arith;
  size_fits = omega arith;
}

write_refused_example :
    (frames : List Bytes) × (rest : List Arrival) × (write stored 1 2 contents
        (disk_with other_reply)
      ≡ (
        err (protocol_error (unexpected_reply AioMsg.io 6 AioMsg.io 7)),
        record (disk_with other_reply) {
          op_id = 8;
          sock = record (conn_with rest) { sent = frames };
        },
      ))
    × (store stored (expected (disk_with other_reply) 7 4) frames (0 ∷ 0 ∷ 0 ∷ 0 ∷ 0 ∷ 0 ∷ 9 ∷ [])
        ≡ ok (blit 2 contents (0 ∷ 0 ∷ 0 ∷ 0 ∷ 0 ∷ 0 ∷ 9 ∷ [])))
    × Delivers rest []
write_refused_example =
    write_refused stored (disk_with other_reply) 1 2 contents AioMsg.io 6 [] []
      (0 ∷ 0 ∷ 0 ∷ 0 ∷ 0 ∷ 0 ∷ 9 ∷ []) (protocol_error (unexpected_reply AioMsg.io 6 AioMsg.io 7))
      stored-IsLawful other_reply-CanWrite (omega arith) (omega arith) (omega arith) refl
      other_reply-Delivers (omega arith)

-- One fragment of two, and then the header of an ERROR frame.
abbrev half : Bytes
half = replies 7 (last_byte ∷ []) ++ (hdr_bytes AioMsg.error 4 7 ++ [])

abbrev stopping : List Arrival
stopping = piece (take 30 half) ∷ piece (drop 30 half) ∷ []

stopping-Delivers : Delivers stopping half
unfolding le
stopping-Delivers = record { pieces = (tt, (tt, tt)); bytes = refl }

stopping-CanRead : CanRead (disk_with stopping) buffer 3 2
stopping-CanRead = record {
  some = omega arith;
  writable = refl;
  room = omega arith;
  can_send = record { is_open = refl; no_faults = refl };
  op_id_fits = omega arith;
  fields_fit = omega arith;
}

last_byte-Accepted : Accepted stored 4 [] (last_byte ∷ [])
last_byte-Accepted =
    let (v, new, some_, inside, _) = fragments-Accepted in (v, new, some_, inside, tt)

readinto_refused_example :
    (rest : List Arrival) × (readinto stored 3 2 buffer false (disk_with stopping) ≡ (
      err (protocol_error (aio_error 7 4)),
      record (disk_with stopping) {
        op_id = 8;
        sock = record (conn_with rest) { sent = request (disk_with stopping) 3 4 ∷ [] };
      },
      record buffer { bytes = placed (last_byte ∷ []) (0 ∷ 0 ∷ 0 ∷ 0 ∷ 9 ∷ []) },
    ))
    × Delivers rest []
readinto_refused_example =
    readinto_refused stored (disk_with stopping) buffer 3 2 stopping-CanRead (last_byte ∷ []) []
      AioMsg.error 7 4 (protocol_error (aio_error 7 4)) last_byte-Accepted (omega arith)
      (omega arith) (omega arith) (omega arith) refl stopping-Delivers
