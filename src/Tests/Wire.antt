-- ===== src/Tests/Wire.antt =====
-- Bytes, headers and messages at concrete sockets.
use open_vix_disk_lib.Prelude.{◌≤◌, ◌≡◌, refl, arith, List, [], ◌∷◌, ◌++◌, drop, take}
use open_vix_disk_lib.Error.{ok, err, protocol_error, connection_closed}
use open_vix_disk_lib.Struct.{Bytes, le, u32, u64, pack, unpack_from}
use open_vix_disk_lib.Struct.Laws.{layout, unpack-layout}
use open_vix_disk_lib.Conn.{Arrival, piece, Conn, Target, recvn}
use open_vix_disk_lib.Conn.Receive.{Delivers, recvn-Delivers}
use open_vix_disk_lib.Conn.Appended.{Agrees, recvn-Agrees}
use open_vix_disk_lib.WriteProbe.{recvn_appended}
use open_vix_disk_lib.Conn.Ends.{RecvnEnds, recvn-Ends}
use open_vix_disk_lib.Conn.Short.{recvn_short}
use open_vix_disk_lib.Fastlz.{compress, decompress}
use open_vix_disk_lib.Fastlz.RoundTrip.{length-decompress, decompress-compress}
use open_vix_disk_lib.AioMsg
use open_vix_disk_lib.Aio.{nfc_aio_magic, pack_aio_hdr, unpack_aio_hdr, aio_roundtrip}
use open_vix_disk_lib.Aio.Frames.{frame, hdr_bytes, unpack-pack_aio_hdr}
use open_vix_disk_lib.Aio.Exchange.{aio_roundtrip_lem}
use open_vix_disk_lib.Tests.{stored, stored-IsLawful, conn_with, disk_with}

unpack-layout_example : unpack_from 8 (layout (u32 1 ∷ u64 600 ∷ []) ++ (9 ∷ [])) 4 ≡ ok 600
unpack-layout_example = unpack-layout (u32 1 ∷ u64 600 ∷ []) (9 ∷ []) 1 (omega arith) (omega arith)

-- Three bytes, and two more, in two pieces.
abbrev two_pieces : Conn
two_pieces = conn_with (piece (1 ∷ 2 ∷ []) ∷ piece (3 ∷ 4 ∷ 5 ∷ []) ∷ [])

two_pieces-Delivers : Delivers two_pieces.incoming ((1 ∷ 2 ∷ 3 ∷ []) ++ (4 ∷ 5 ∷ []))
two_pieces-Delivers = record { pieces = (tt, (tt, tt)); bytes = refl }

recvn-Delivers_example :
    (rest : List Arrival) × (recvn 3 two_pieces
      ≡ (ok (1 ∷ 2 ∷ 3 ∷ []), record two_pieces { incoming = rest }))
    × Delivers rest (4 ∷ 5 ∷ [])
recvn-Delivers_example =
    recvn-Delivers two_pieces (1 ∷ 2 ∷ 3 ∷ []) (4 ∷ 5 ∷ []) refl two_pieces-Delivers

abbrev six_zeros : Target
six_zeros = record { conn = two_pieces; buf = 0 ∷ 0 ∷ 0 ∷ 0 ∷ 0 ∷ 0 ∷ [] }

recvn_short_example : (recvn 9 two_pieces).0 ≡ err (protocol_error (connection_closed 9 5))
recvn_short_example =
    recvn_short 9 two_pieces (1 ∷ 2 ∷ 3 ∷ 4 ∷ 5 ∷ []) refl (omega arith) two_pieces-Delivers

recvn-Ends_example : RecvnEnds 9 two_pieces (recvn 9 two_pieces)
recvn-Ends_example = recvn-Ends 9 two_pieces

recvn-Agrees_example : Agrees 9 (recvn 9 two_pieces) (recvn_appended 9 two_pieces)
recvn-Agrees_example = recvn-Agrees 9 two_pieces

decompress-compress_example : decompress stored (1 ∷ 2 ∷ 3 ∷ []) 3 ≡ ok (1 ∷ 2 ∷ 3 ∷ [])
unfolding compress le
decompress-compress_example =
    decompress-compress stored (1 ∷ 2 ∷ 3 ∷ []) (1 ∷ 2 ∷ 3 ∷ []) stored-IsLawful (omega arith) refl
      (λ e. cc)

length-decompress_example : 3 ≤ 8
unfolding decompress le pack
length-decompress_example = length-decompress stored (1 ∷ 2 ∷ 3 ∷ []) 8 (1 ∷ 2 ∷ 3 ∷ []) refl

unpack-pack_aio_hdr_example :
    unpack_aio_hdr (hdr_bytes 6 44 7)
    ≡ ok (record { magic = nfc_aio_magic; msg_type = 6; size = 44; op_id = 7 })
unfolding pack_aio_hdr pack
unpack-pack_aio_hdr_example = unpack-pack_aio_hdr 6 44 7 (hdr_bytes 6 44 7) refl

-- The reply to a `CLOSE_FILE` request with operation id 7, cut behind five bytes.
abbrev reply : Bytes
reply = frame AioMsg.close_file 7 (1 ∷ 2 ∷ []) (8 ∷ 9 ∷ [])

abbrev replied : List Arrival
replied = piece (take 5 reply) ∷ piece (drop 5 reply) ∷ []

replied-Delivers : Delivers replied reply
unfolding le
replied-Delivers = record { pieces = (tt, (tt, tt)); bytes = refl }

aio_roundtrip_lem_example :
    (rest : List Arrival) × (aio_roundtrip AioMsg.close_file (3 ∷ []) [] 1 (disk_with replied) ≡ (
      ok (1 ∷ 2 ∷ 8 ∷ []),
      record (disk_with replied) {
        op_id = 8;
        sock = record (conn_with rest) { sent = frame AioMsg.close_file 7 (3 ∷ []) [] ∷ [] };
      },
    ))
    × Delivers rest (9 ∷ [])
aio_roundtrip_lem_example =
    aio_roundtrip_lem (disk_with replied) AioMsg.close_file (3 ∷ []) [] (1 ∷ 2 ∷ []) (8 ∷ [])
      (9 ∷ []) (record { is_open = refl; no_faults = refl }) (omega arith) (omega arith)
      (omega arith) (omega arith) (λ e. omega arith) replied-Delivers
