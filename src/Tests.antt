-- ===== src/Tests.antt =====
-- Runs of the theorems at concrete sockets, disks and servers.
pub mod Wire
pub mod Disk
pub mod Leaks
pub mod Calls
pub mod Runs
pub mod Whole
pub mod Faults
pub mod Traces
pub mod Opening
pub mod Handles
pub mod Authd
use open_vix_disk_lib.Prelude.{
  ℕ, ◌+◌, ◌≤◌, ◌≡◌, refl, ap, arith, Option, none, some, false, true, List, [], ◌∷◌, ◌++◌, length,
  drop, drop-append_exact,
}
use open_vix_disk_lib.Struct.{Bytes, le}
use open_vix_disk_lib.Struct.Laws.{length-le}
use open_vix_disk_lib.Conn.{Arrival, piece, Conn}
use open_vix_disk_lib.Aio.{NfcDisk}
use open_vix_disk_lib.Fastlz.{Codec, IsLawful}

-- A compressor that stores the data as they are, behind their length.
abbrev pub stored : Codec
stored = record {
  compress = λ source level. some (le 4 (length source) ++ source);
  decompress = λ w. some (drop 4 w);
}

pub same_source : {a b : Bytes} → some a ≡ some b → a ≡ b
same_source e = cc

pub stored-IsLawful : IsLawful stored
stored-IsLawful = record {
  prefixed = λ source level w e. (source, cc);
  inverse = λ source level w e.
      rw (← same_source e)
        (ap some (drop-append_exact (le 4 (length source)) source 4 (length-le 4 (length source))));
  accepts = λ source level long. (le 4 (length source) ++ source, refl);
}

-- An open socket to which the network brings the pieces.
abbrev pub conn_with : List Arrival → Conn
conn_with arrivals = record { incoming = arrivals; sent = []; send_faults = []; is_open = true }

-- A disk of two-byte sectors.
abbrev pub disk_with : List Arrival → NfcDisk
disk_with arrivals = record {
  sock = conn_with arrivals;
  op_id = 7;
  path = [];
  handle = 5;
  sector_size = 2;
  compression = 2;
  aio_buffer_size = 3;
  aio_buffer_count = 4;
  closed = false;
}
