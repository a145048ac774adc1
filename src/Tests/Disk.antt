-- ===== src/Tests/Disk.antt =====
-- Reads, writes and `close` at a disk of two-byte sectors.
use open_vix_disk_lib.Prelude.{
  ℕ, ◌+◌, ◌*◌, ◌^◌, ◌≤◌, ◌≡◌, refl, arith, true, false, if◌then◌else◌, inl, inr, List, [], ◌∷◌,
  ◌++◌, All, length, drop, take, blit,
}
use open_vix_disk_lib.Error.{ok}
use open_vix_disk_lib.Struct.{Bytes, le, un_le, u32, u64, pack, unpack_from}
use open_vix_disk_lib.Struct.Laws.{layout}
use open_vix_disk_lib.Conn.{Arrival, piece}
use open_vix_disk_lib.Conn.Receive.{Delivers}
use open_vix_disk_lib.Fastlz.{decompress}
use open_vix_disk_lib.AioMsg
use open_vix_disk_lib.Aio.Frames.{frame}
use open_vix_disk_lib.Read.Fragment.{Buffer, is_seen}
use open_vix_disk_lib.Read.Replies.{Reply, Describes}
use open_vix_disk_lib.Read.Reassembly.{
  replies, placed, Accepted, request, CanRead, readinto-replies,
}
use open_vix_disk_lib.Read.Contents.{IsPartition, readinto_contents}
use open_vix_disk_lib.Read.{readinto}
use open_vix_disk_lib.Write.{write}
use open_vix_disk_lib.Write.Fragments.{expected}
use open_vix_disk_lib.Write.Sent.{CanWrite, store}
use open_vix_disk_lib.Write.Whole.{write_stores}
use open_vix_disk_lib.Open.{OpenArgs, open_over, close_disk}
use open_vix_disk_lib.Open.Cleanup.{disk_open, is_ok, open_over_socket, close_disk_marks}
use open_vix_disk_lib.Tests.{stored, stored-IsLawful, conn_with, disk_with}

-- The reply for the last byte comes first, and is compressed; the first three bytes are raw.
abbrev reply_body : ℕ → ℕ → ℕ → ℕ → Bytes
reply_body opcode dest chunk_len extra_len =
    layout (u64 5 ∷ u64 opcode ∷ u64 6 ∷ u32 4 ∷ u32 dest ∷ u32 chunk_len ∷ u32 extra_len ∷ [])

abbrev pub last_byte : Reply
last_byte = record {
  body = reply_body (1 + 2 * 2 ^ 32) 3 1 1;
  extra = 40 ∷ [];
  dest = 3;
  bytes = 40 ∷ [];
}

abbrev pub first_bytes : Reply
first_bytes = record {
  body = reply_body 1 0 3 3;
  extra = 10 ∷ 20 ∷ 30 ∷ [];
  dest = 0;
  bytes = 10 ∷ 20 ∷ 30 ∷ [];
}

last_byte-Describes : Describes stored last_byte
unfolding le un_le unpack_from decompress pack
last_byte-Describes = record {
  opcode = 1 + 2 * 2 ^ 32;
  opcode_read = refl;
  dest_read = refl;
  length_read = refl;
  long = omega arith;
  fits = omega arith;
  form = inr (refl, refl, omega arith, refl);
}

first_bytes-Describes : Describes stored first_bytes
unfolding le un_le unpack_from
first_bytes-Describes = record {
  opcode = 1;
  opcode_read = refl;
  dest_read = refl;
  length_read = refl;
  long = omega arith;
  fits = omega arith;
  form = inl (refl, refl);
}

abbrev pub fragments : List Reply
fragments = last_byte ∷ first_bytes ∷ []

abbrev pub contents : Bytes
contents = 10 ∷ 20 ∷ 30 ∷ 40 ∷ []

pub fragments-Accepted : Accepted stored 4 [] fragments
unfolding is_seen
fragments-Accepted = (
  last_byte-Describes,
  refl,
  omega arith,
  omega arith,
  (first_bytes-Describes, refl, omega arith, omega arith, tt),
)

pub fragments-IsPartition : IsPartition contents fragments
fragments-IsPartition = record {
  slices = (refl, (refl, tt));
  covered = λ i h. ground arith;
  sum = refl;
}

abbrev pub arrivals : List Arrival
arrivals = piece (take 50 (replies 7 fragments)) ∷ piece (drop 50 (replies 7 fragments)) ∷ []

pub arrivals-Delivers : Delivers arrivals (replies 7 fragments ++ [])
unfolding le
arrivals-Delivers = record { pieces = (tt, (tt, tt)); bytes = refl }

-- A buffer with a byte more than the two sectors need.
abbrev pub buffer : Buffer
buffer = record { readonly = false; bytes = 0 ∷ 0 ∷ 0 ∷ 0 ∷ 9 ∷ [] }

pub buffer-CanRead : CanRead (disk_with arrivals) buffer 3 2
buffer-CanRead = record {
  some = omega arith;
  writable = refl;
  room = omega arith;
  can_send = record { is_open = refl; no_faults = refl };
  op_id_fits = omega arith;
  fields_fit = omega arith;
}

readinto_contents_example :
    ((readinto stored 3 2 buffer false (disk_with arrivals)).0
      ≡ ok (record { uncompressed_length = 4; compressed_length = 4; fragments = [] }))
    × ((readinto stored 3 2 buffer false (disk_with arrivals)).2.bytes ≡ 10 ∷ 20 ∷ 30 ∷ 40 ∷ 9 ∷ [])
readinto_contents_example =
    readinto_contents stored (disk_with arrivals) buffer 3 2 contents fragments [] buffer-CanRead
      refl fragments-Accepted fragments-IsPartition arrivals-Delivers

readinto-replies_example :
    (rest : List Arrival) × (readinto stored 3 2 buffer false (disk_with arrivals) ≡ (
      ok (record { uncompressed_length = 4; compressed_length = 4; fragments = [] }),
      record (disk_with arrivals) {
        op_id = 8;
        sock = record (conn_with rest) { sent = request (disk_with arrivals) 3 4 ∷ [] };
      },
      record buffer { bytes = placed fragments (0 ∷ 0 ∷ 0 ∷ 0 ∷ 9 ∷ []) },
    ))
    × Delivers rest []
readinto-replies_example =
    readinto-replies stored (disk_with arrivals) buffer 3 2 buffer-CanRead fragments []
      fragments-Accepted refl arrivals-Delivers

-- The acknowledgement of a write.
abbrev pub acknowledged : List Arrival
acknowledged =
    piece (take 3 (frame AioMsg.io 7 [] [])) ∷ piece (drop 3 (frame AioMsg.io 7 [] [])) ∷ []

acknowledged-Delivers : Delivers acknowledged (frame AioMsg.io 7 [] [])
unfolding le
acknowledged-Delivers = record { pieces = (tt, (tt, tt)); bytes = refl }

pub contents-CanWrite : CanWrite (disk_with acknowledged) 1 2 contents
contents-CanWrite = record {
  some = omega arith;
  size = refl;
  buffer = omega arith;
  can_send = record { is_open = refl; no_faults = refl };
  op_id_fits = omega arith;
  handle_fits = omega arith;
  offset_fits = omega arith;
  size_fits = omega arith;
}

write_stores_example :
    (frames : List Bytes) × (rest : List Arrival) × (write stored 1 2 contents
        (disk_with acknowledged)
      ≡ (
        ok tt,
        record (disk_with acknowledged) {
          op_id = 8;
          sock = record (conn_with rest) { sent = frames };
        },
      ))
    × (store stored (expected (disk_with acknowledged) 7 4) frames (0 ∷ 0 ∷ 0 ∷ 0 ∷ 0 ∷ 0 ∷ 9 ∷ [])
        ≡ ok (blit 2 contents (0 ∷ 0 ∷ 0 ∷ 0 ∷ 0 ∷ 0 ∷ 9 ∷ [])))
    × All (λ f. length f ≤ 63) frames
    × Delivers rest []
write_stores_example =
    write_stores stored (disk_with acknowledged) 1 2 contents [] [] (0 ∷ 0 ∷ 0 ∷ 0 ∷ 0 ∷ 0 ∷ 9 ∷ [])
      stored-IsLawful contents-CanWrite (omega arith) acknowledged-Delivers (omega arith)

abbrev args : OpenArgs
args = record {
  disk_path = [];
  client_name = [];
  op_id = [];
  version = 11;
  read_only = true;
  compression = 2;
  aio_buffer_size = 3;
  aio_buffer_count = 4;
}

open_over_socket_example :
    disk_open (open_over args (disk_with acknowledged)).1
    ≡ (if is_ok (open_over args (disk_with acknowledged)).0 then true else false)
open_over_socket_example = open_over_socket args (disk_with acknowledged)

close_disk_marks_example :
    ((close_disk (disk_with acknowledged)).1.closed ≡ true)
    × (disk_open (close_disk (disk_with acknowledged)).1 ≡ false)
close_disk_marks_example = close_disk_marks (disk_with acknowledged)
