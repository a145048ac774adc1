-- ===== src/Tests/Whole.antt =====
-- A disk that is opened, read and closed through the handle.
use open_vix_disk_lib.Prelude.{
  ℕ, ◌<◌, ◌^◌, ◌≡◌, ◌≤◌, refl, arith, true, false, none, [], ◌∷◌, codes, length, take, drop,
  text_eq,
}
use open_vix_disk_lib.Error.{ok}
use open_vix_disk_lib.Struct.{Bytes, le, un_le, u32, u64, unpack_from}
use open_vix_disk_lib.Struct.Laws.{layout}
use open_vix_disk_lib.Conn.{piece, Conn}
use open_vix_disk_lib.Conn.Receive.{Delivers}
use open_vix_disk_lib.Text.{encode_ascii, encode_utf8, utf8_char}
use open_vix_disk_lib.AioMsg
use open_vix_disk_lib.Aio.Frames.{frame}
use open_vix_disk_lib.Read.Reassembly.{CanRead}
use open_vix_disk_lib.Open.{OpenArgs, check_args}
use open_vix_disk_lib.Open.Greeting.{greeting}
use open_vix_disk_lib.Open.Prepared.{Answers, prepared}
use open_vix_disk_lib.Open.Opened.{CanOpen, opened}
use open_vix_disk_lib.World.{World, Env}
use open_vix_disk_lib.Vim.{register_nfc_types}
use open_vix_disk_lib.Handle.{Connection, open_args, open_handle, nfc_compression}
use open_vix_disk_lib.Handle.Opened.{Accepts, Greets, CanEnter}
use open_vix_disk_lib.Handle.Whole.{reading, lengths, filled, afterwards, open_handle_reads}
use open_vix_disk_lib.Tests.{stored, conn_with}
use open_vix_disk_lib.Tests.Leaks.{ticket}
use open_vix_disk_lib.Tests.Authd.{
  greeted, accepted, session_encoded, proxy_encoded, idle, plain, authd, host, pinned,
}
use open_vix_disk_lib.Tests.Opening.{welcome}
use open_vix_disk_lib.Tests.Disk.{
  fragments, contents, buffer, fragments-Accepted, fragments-IsPartition,
}

-- The reply to `OPEN_FILE`: the handle 5, and sectors of two bytes.
abbrev file : Bytes
file = layout (u64 0 ∷ u64 5 ∷ u32 2 ∷ u32 0 ∷ u32 0 ∷ u32 0 ∷ u32 0 ∷ u32 2 ∷ [])

handle_at : unpack_from 8 file 8 ≡ ok 5
unfolding le un_le unpack_from
handle_at = refl

file_type_at : unpack_from 4 file 16 ≡ ok 2
unfolding le un_le unpack_from
file_type_at = refl

flags_at : unpack_from 4 file 20 ≡ ok 0
unfolding le un_le unpack_from
flags_at = refl

sector_size_at : unpack_from 4 file 36 ≡ ok 2
unfolding le un_le unpack_from
sector_size_at = refl

file_length : 40 ≤ length file
unfolding le
file_length = omega arith

file_fits : length file < 2 ^ 32
unfolding le
file_fits = omega arith

abbrev small : Answers
small = record {
  session = [];
  opts = [];
  pool = [];
  file = file;
  handle = 5;
  sector_size = 2;
  session_fits = omega arith;
  opts_fits = omega arith;
  pool_fits = omega arith;
  file_fits = file_fits;
  flags = 0;
  sector_word = 2;
  file_length = file_length;
  handle_at = handle_at;
  file_type_at = file_type_at;
  flags_at = flags_at;
  sector_size_at = sector_size_at;
  sector_size_is = refl;
}

abbrev args : OpenArgs
args = open_args (codes "[ds] a.vmdk") true 0 65536 1

-- The server's whole part, in two pieces.
abbrev after_open : Bytes
after_open = afterwards fragments [] [] []

abbrev said : Bytes
said = greeting welcome (prepared small 0 (frame AioMsg.open_file 3 file after_open))

abbrev nfc : Conn
nfc = conn_with (piece (take 700 said) ∷ piece (drop 700 said) ∷ [])

said-Delivers : Delivers nfc.incoming said
unfolding le
said-Delivers = record { pieces = (tt, (tt, tt)); bytes = refl }

args-CanOpen : CanOpen args (codes "vddk") (codes "nbdmode") (codes "[ds] a.vmdk")
unfolding encode_ascii encode_utf8 utf8_char
args-CanOpen = record {
  greets = record {
    name_encoded = refl;
    op_encoded = refl;
    version_fits = omega arith;
    name_fits = omega arith;
    op_fits = omega arith;
  };
  path_encoded = refl;
  path_fits = omega arith;
  size_fits = omega arith;
  count_fits = omega arith;
}

abbrev everything : Env
everything = record host { dup = λ w raw. ok nfc }

abbrev connection : Connection
connection = record {
  si = 0;
  vm_moref = codes "vm-1";
  snapshot_ref = none;
  thumbprint = none;
  allow_untrusted = false;
  read_only = true;
  transport_mode = codes "nbd";
}

enters : CanEnter connection 4 args
unfolding nfc_compression text_eq check_args
enters = record { selects = refl; may_write = refl; plain = refl; checked = refl }

accepts : Accepts everything ticket false (register_nfc_types everything idle)
accepts = record {
  raw = plain;
  tls = conn_with authd;
  banner = greeted;
  first = greeted;
  sha2 = accepted;
  proxy = accepted;
  session_b = codes "SESSION 52\r\n";
  proxy_b = codes "PROXY vpxa-nfc\r\n";
  behind = [];
  rest = 22 ∷ [];
  reach = record { connects = refl; wraps = λ v c. refl };
  raw_open = refl;
  greets = record { pieces = (tt, tt); bytes = refl };
  trusted = pinned;
  session_encoded = session_encoded;
  proxy_encoded = proxy_encoded;
  can_send = record { is_open = refl; no_faults = refl };
  answers = record { pieces = (tt, (tt, (tt, tt))); bytes = refl };
}

greets : Greets args nfc small after_open
greets = record {
  name_b = codes "vddk";
  op_b = codes "nbdmode";
  path_b = codes "[ds] a.vmdk";
  greeting_ = welcome;
  can_open = args-CanOpen;
  can_send = record { is_open = refl; no_faults = refl };
  answers = said-Delivers;
}

buffer-CanRead : CanRead (opened args small nfc [] []) buffer 3 2
buffer-CanRead = record {
  some = omega arith;
  writable = refl;
  room = omega arith;
  can_send = record { is_open = refl; no_faults = refl };
  op_id_fits = omega arith;
  fields_fit = omega arith;
}

open_handle_reads_example :
    (i : ℕ) × (v : World) × (open_handle everything connection
        (codes "[ds] a.vmdk")
        4
        65536
        1
        (reading stored 3 2 buffer)
        idle
      ≡ (ok (lengths contents fragments, filled buffer contents), v))
    × ((v.disks i).closed ≡ true)
    × ((v.disks i).sock.is_open ≡ false)
    × Delivers (v.disks i).sock.incoming []
open_handle_reads_example =
    open_handle_reads everything connection (codes "[ds] a.vmdk") 4 0 65536 1 idle ticket nfc small
      stored buffer 3 2 contents fragments [] [] [] enters (λ v. refl) accepts
      (record { dups = λ v c. refl; options = λ v. refl }) greets buffer-CanRead (omega arith) refl
      fragments-Accepted fragments-IsPartition (omega arith) (omega arith)
