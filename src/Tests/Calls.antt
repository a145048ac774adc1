-- ===== src/Tests/Calls.antt =====
-- Calls on a disk of two-byte sectors: against a server that stops, in sequence, and packed reads.
use open_vix_disk_lib.Prelude.{◌≡◌, refl, true, false, arith, List, [], ◌∷◌, take, blit}
use open_vix_disk_lib.Error.{ok}
use open_vix_disk_lib.Conn.{Arrival, piece, failure}
use open_vix_disk_lib.Conn.Receive.{Delivers}
use open_vix_disk_lib.Read.{readinto}
use open_vix_disk_lib.Read.Reassembly.{replies, request}
use open_vix_disk_lib.Read.Packed.{packed, table, readinto_packs}
use open_vix_disk_lib.Read.Unpacked.{Unpacks, readinto_unpacked}
use open_vix_disk_lib.Read.Total.{ReadEnds, readinto-ReadEnds}
use open_vix_disk_lib.Write.{write}
use open_vix_disk_lib.Write.Total.{WriteEnds, write-WriteEnds}
use open_vix_disk_lib.Open.{close_disk}
use open_vix_disk_lib.Life.{Ages, IsValid, none_yet, and_then_one, writes, closes, Calls-Ages}
use open_vix_disk_lib.Open.{with_disk}
use open_vix_disk_lib.Life.With.{Ended, with_disk-Ended}
use open_vix_disk_lib.Tests.{stored, conn_with, disk_with}
use open_vix_disk_lib.Tests.Disk.{
  fragments, contents, arrivals, buffer, acknowledged, fragments-Accepted, arrivals-Delivers,
  buffer-CanRead,
}

-- The answer breaks off in the second header.
abbrev broken : List Arrival
broken = piece (take 60 (replies 7 fragments)) ∷ failure ∷ []

readinto-ReadEnds_example :
    ReadEnds (disk_with broken) buffer 4 (readinto stored 3 2 buffer false (disk_with broken))
readinto-ReadEnds_example = readinto-ReadEnds stored 3 2 buffer false (disk_with broken)

write-WriteEnds_example :
    WriteEnds (disk_with broken) 4 2 (write stored 1 2 contents (disk_with broken))
write-WriteEnds_example = write-WriteEnds stored 1 contents (disk_with broken) (omega arith) 2

fresh-IsValid : IsValid (disk_with acknowledged)
fresh-IsValid = record { shut = λ h. absurd (cc); buffer = omega arith }

Calls-Ages_example :
    Ages
      (disk_with acknowledged)
      (close_disk (write stored 1 2 contents (disk_with acknowledged)).1).1
Calls-Ages_example = Calls-Ages stored fresh-IsValid (
    and_then_one (and_then_one none_yet (writes 1 2 contents (disk_with acknowledged)))
      (closes (write stored 1 2 contents (disk_with acknowledged)).1))

readinto_packs_example :
    (rest : List Arrival) × (readinto stored 3 2 buffer true (disk_with arrivals) ≡ (
      ok (record {
        uncompressed_length = 4;
        compressed_length = 4;
        fragments = table stored 4 [] 0 fragments fragments-Accepted;
      }),
      record (disk_with arrivals) {
        op_id = 8;
        sock = record (conn_with rest) { sent = request (disk_with arrivals) 3 4 ∷ [] };
      },
      record buffer { bytes = blit 0 (packed fragments) (0 ∷ 0 ∷ 0 ∷ 0 ∷ 9 ∷ []) },
    ))
    × Delivers rest []
readinto_packs_example =
    readinto_packs stored (disk_with arrivals) buffer 3 2 buffer-CanRead fragments []
      fragments-Accepted refl (omega arith) arrivals-Delivers

readinto_unpacked_example :
    Unpacks stored
      (readinto stored 3 2 buffer true (disk_with arrivals))
      (0 ∷ 0 ∷ 0 ∷ 0 ∷ 9 ∷ [])
      (readinto stored 3 2 buffer false (disk_with arrivals)).2.bytes
readinto_unpacked_example =
    readinto_unpacked stored (disk_with arrivals) buffer 3 2 buffer-CanRead fragments []
      fragments-Accepted refl (omega arith) arrivals-Delivers

with_disk-Ended_example :
    Ended
      (disk_with acknowledged)
      (with_disk (write stored 1 2 contents) (disk_with acknowledged)).1
with_disk-Ended_example =
    with_disk-Ended stored (write stored 1 2 contents) (disk_with acknowledged) fresh-IsValid
      (and_then_one none_yet (writes 1 2 contents (disk_with acknowledged)))
