-- ===== src/Tests/Opening.antt =====
-- Opening and closing a disk, with a server that follows the protocol and with one that does not.
use open_vix_disk_lib.Prelude.{
  ◌≡◌, ◌≤◌, refl, arith, List, [], ◌∷◌, ◌++◌, codes, length, take, drop, ◌<◌, ◌^◌,
}
use open_vix_disk_lib.Error.{ok}
use open_vix_disk_lib.Struct.{Bytes, le, un_le, u32, u64, unpack_from}
use open_vix_disk_lib.Struct.Laws.{layout}
use open_vix_disk_lib.Conn.{Arrival, piece, failure, Conn}
use open_vix_disk_lib.Conn.Receive.{Delivers}
use open_vix_disk_lib.Conn.Messages.{message, IsMessage}
use open_vix_disk_lib.Text.{encode_ascii, encode_utf8, utf8_char}
use open_vix_disk_lib.AioMsg
use open_vix_disk_lib.NfcMsg
use open_vix_disk_lib.Aio.Frames.{frame}
use open_vix_disk_lib.Open.{new_disk, open_over, close_disk}
use open_vix_disk_lib.Open.Greeting.{Greeting, greeting, hello}
use open_vix_disk_lib.Open.Prepared.{Answers, prepared}
use open_vix_disk_lib.Open.Opened.{requests, opened, CanOpen, open_over_opens}
use open_vix_disk_lib.Open.Closed.{CanClose, gone, close_disk_lem}
use open_vix_disk_lib.Open.Total.{OpenEnds, open_over-OpenEnds}
use open_vix_disk_lib.Tests.{conn_with, disk_with}
use open_vix_disk_lib.Tests.Leaks.{args}

-- The server closes after its first message.
abbrev rude : Conn
rude = conn_with (piece (message NfcMsg.session_params_reply []) ∷ failure ∷ [])

open_over-OpenEnds_example : OpenEnds args rude (open_over args (new_disk rude args))
open_over-OpenEnds_example = open_over-OpenEnds args rude

pub params-IsMessage :
    IsMessage NfcMsg.session_params_reply (message NfcMsg.session_params_reply [])
unfolding le un_le unpack_from
params-IsMessage = record { size = refl; type_read = refl }

-- The message with the protocol version 11.
abbrev pub version : Bytes
version = message NfcMsg.version (layout (u32 11 ∷ []))

pub version-IsMessage : IsMessage NfcMsg.version version
unfolding le un_le unpack_from
version-IsMessage = record { size = refl; type_read = refl }

pub version_read : unpack_from 4 (drop 4 version) 0 ≡ ok 11
unfolding le un_le unpack_from
version_read = refl

pub ready-IsMessage : IsMessage NfcMsg.aio_session_open (message NfcMsg.aio_session_open [])
unfolding le un_le unpack_from
ready-IsMessage = record { size = refl; type_read = refl }

abbrev pub welcome : Greeting
welcome = record {
  params = message NfcMsg.session_params_reply [];
  version = version;
  ready = message NfcMsg.aio_session_open [];
  number = 11;
  is_params = params-IsMessage;
  is_version = version-IsMessage;
  is_ready = ready-IsMessage;
  number_read = version_read;
  recent = omega arith;
}

-- The reply to `OPEN_FILE`: the handle 5, and sectors of 512 bytes.
abbrev file : Bytes
file = layout (u64 0 ∷ u64 5 ∷ u32 2 ∷ u32 0 ∷ u32 0 ∷ u32 0 ∷ u32 0 ∷ u32 512 ∷ [])

handle_at : unpack_from 8 file 8 ≡ ok 5
unfolding le un_le unpack_from
handle_at = refl

file_type_at : unpack_from 4 file 16 ≡ ok 2
unfolding le un_le unpack_from
file_type_at = refl

flags_at : unpack_from 4 file 20 ≡ ok 0
unfolding le un_le unpack_from
flags_at = refl

sector_size_at : unpack_from 4 file 36 ≡ ok 512
unfolding le un_le unpack_from
sector_size_at = refl

file_length : 40 ≤ length file
unfolding le
file_length = omega arith

file_fits : length file < 2 ^ 32
unfolding le
file_fits = omega arith

abbrev replies : Answers
replies = record {
  session = [];
  opts = [];
  pool = [];
  file = file;
  handle = 5;
  sector_size = 512;
  session_fits = omega arith;
  opts_fits = omega arith;
  pool_fits = omega arith;
  file_fits = file_fits;
  flags = 0;
  sector_word = 512;
  file_length = file_length;
  handle_at = handle_at;
  file_type_at = file_type_at;
  flags_at = flags_at;
  sector_size_at = sector_size_at;
  sector_size_is = refl;
}

-- All that the server says, in two pieces.
abbrev said : Bytes
said = greeting welcome (prepared replies 0 (frame AioMsg.open_file 3 file []))

abbrev spoken : List Arrival
spoken = piece (take 300 said) ∷ piece (drop 300 said) ∷ []

spoken-Delivers : Delivers spoken said
unfolding le
spoken-Delivers = record { pieces = (tt, (tt, tt)); bytes = refl }

args-CanOpen : CanOpen args (codes "vddk") (codes "nbdmode") (codes "[ds] a.vmdk")
unfolding encode_ascii encode_utf8 utf8_char
args-CanOpen = record {
  greets = record {
    name_encoded = refl;
    op_encoded = refl;
    version_fits = omega arith;
    name_fits = omega arith;
    op_fits = omega arith;
  };
  path_encoded = refl;
  path_fits = omega arith;
  size_fits = omega arith;
  count_fits = omega arith;
}

open_over_opens_example :
    (rest : List Arrival) × (open_over args (new_disk (conn_with spoken) args) ≡ (
      ok tt,
      opened args replies
          (conn_with spoken)
          (hello (codes "vddk") (codes "nbdmode") 11 ++ requests args (codes "[ds] a.vmdk"))
          rest,
    ))
    × Delivers rest []
open_over_opens_example =
    open_over_opens args (codes "vddk") (codes "nbdmode") (codes "[ds] a.vmdk") welcome replies []
      (conn_with spoken) args-CanOpen (record { is_open = refl; no_faults = refl }) spoken-Delivers

-- The two replies to a `close`.
abbrev goodbye : List Arrival
goodbye = piece (frame AioMsg.close_file 7 [] []) ∷ piece (frame AioMsg.close_session 8 [] []) ∷ []

goodbye-Delivers :
    Delivers goodbye (frame AioMsg.close_file 7 [] (frame AioMsg.close_session 8 [] []))
unfolding le
goodbye-Delivers = record { pieces = (tt, (tt, tt)); bytes = refl }

goodbye-CanClose : CanClose (disk_with goodbye)
goodbye-CanClose = record {
  open_yet = refl;
  can_send = record { is_open = refl; no_faults = refl };
  op_ids_fit = omega arith;
  handle_fits = omega arith;
}

close_disk_lem_example :
    (rest : List Arrival) × (close_disk (disk_with goodbye)
      ≡ (ok tt, gone (disk_with goodbye) rest))
    × Delivers rest []
close_disk_lem_example =
    close_disk_lem (disk_with goodbye) [] [] [] goodbye-CanClose (omega arith) (omega arith)
      goodbye-Delivers
