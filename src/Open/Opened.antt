-- ===== src/Open/Opened.antt =====
-- `open_disk` over its socket (openvixdisklib/nfc_open.py) with a server that follows the protocol.
use open_vix_disk_lib.Prelude.{
  ℕ, ◌-◌, ◌≡◌, refl, ap, ◌∙◌, Bool, true, false, List, [], ◌∷◌, ◌++◌, append_assoc, arith, All,
  length, length-append, length-replicate, replicate, if◌then◌else◌,
}
use open_vix_disk_lib.Error.{ok}
use open_vix_disk_lib.Struct.{Bytes, Field, u32}
use open_vix_disk_lib.Struct.Laws.{Fits, layout, length-layout, pack-Fits}
use open_vix_disk_lib.Conn.{Arrival, Conn, ljust}
use open_vix_disk_lib.Conn.Receive.{Delivers}
use open_vix_disk_lib.Conn.Send.{CanSend, in_turn-append}
use open_vix_disk_lib.Text.{Text, encode_utf8}
use open_vix_disk_lib.AioMsg
use open_vix_disk_lib.Aio.{NfcDisk}
use open_vix_disk_lib.Aio.Frames.{IsU32, frame}
use open_vix_disk_lib.Open.{
  nfc_disk, nfc_open_flags_read_only, nfc_open_flags_read_write, open_file, OpenArgs, new_disk,
  open_steps, open_over,
}
use open_vix_disk_lib.Open.Greeting.{Greeting, greeting, hello, CanGreet, handshake_lem}
use open_vix_disk_lib.Open.Prepared.{
  answered, plain_roundtrip, Answers, prepared, parse_open_reply_lem, ready, aio_prepare_lem,
}

abbrev file_fields : Bytes → Bool → List Field
file_fields path_b read_only =
    u32 (length path_b)
    ∷ u32 0
    ∷ u32 0
    ∷ u32 0
    ∷ u32 nfc_disk
    ∷ u32 (if read_only then nfc_open_flags_read_only else nfc_open_flags_read_write)
    ∷ []

file_fields-Fits :
    (path_b : Bytes) (read_only : Bool)
    → IsU32 (length path_b)
    → All Fits (file_fields path_b read_only)
file_fields-Fits path_b true h = omega arith
file_fields-Fits path_b false h = omega arith

abbrev pub open_body : Bytes → Bool → Bytes
open_body path_b read_only = ljust 60 (layout (file_fields path_b read_only))

length-open_body : (path_b : Bytes) (read_only : Bool) → length (open_body path_b read_only) ≡ 60
length-open_body path_b read_only =
    let fields : List Field = file_fields path_b read_only in
    omega (
      arith,
      length-append (layout fields) (replicate (60 - length (layout fields)) 0),
      length-replicate {A = ℕ} (60 - length (layout fields)) 0,
      length-layout fields,
    )

-- The disk after `OPEN_FILE`.
abbrev file_opened : Answers → Bytes → Bool → List Arrival → NfcDisk → NfcDisk
file_opened r path_b read_only rest d =
    record (answered AioMsg.open_file (open_body path_b read_only) path_b rest d) {
      handle = r.handle;
      sector_size = r.sector_size;
    }

open_file_lem :
    (path : Text) (path_b : Bytes) (read_only : Bool) (r : Answers) (ys : Bytes) (d : NfcDisk)
    → encode_utf8 path ≡ ok path_b
    → IsU32 (length path_b)
    → CanSend d.sock
    → IsU32 d.op_id
    → Delivers d.sock.incoming (frame AioMsg.open_file d.op_id r.file ys)
    → (rest : List Arrival) × (open_file path read_only d
        ≡ (ok tt, file_opened r path_b read_only rest d))
      × Delivers rest ys
unfolding open_file
open_file_lem path path_b read_only r ys d enc hp can ho del =
    let l = length-open_body path_b read_only in
    let (rest, e, del') =
      plain_roundtrip AioMsg.open_file (open_body path_b read_only) path_b r.file ys d can
        (omega arith) ho (omega arith) r.file_fits (λ e. omega arith) del in
    (
      rest,
      rw
          (
            enc,
            pack-Fits (file_fields path_b read_only) (file_fields-Fits path_b read_only hp),
            e,
            parse_open_reply_lem r,
          )
          refl,
      del',
    )

-- The arguments fit their formats, and the texts have encodings.
pub record CanOpen (a : OpenArgs) (name_b op_b path_b : Bytes) : Type 0 where
  pub greets : CanGreet a.client_name a.op_id a.version name_b op_b
  pub path_encoded : encode_utf8 a.disk_path ≡ ok path_b
  pub path_fits : IsU32 (length path_b)
  pub size_fits : IsU32 a.aio_buffer_size
  pub count_fits : IsU32 a.aio_buffer_count

-- What goes out after the handshake.
abbrev pub requests : OpenArgs → Bytes → List Bytes
requests a path_b =
    frame AioMsg.open_session 0
      (layout (u32 0 ∷ u32 a.aio_buffer_size ∷ u32 a.aio_buffer_count ∷ u32 0 ∷ [])) []
    ∷ frame AioMsg.set_sock_opts 1 (replicate 12 0) []
    ∷ frame AioMsg.set_res_pool 2 (layout (u32 1 ∷ [])) []
    ∷ frame AioMsg.open_file 3 (open_body path_b a.read_only) path_b
    ∷ []

abbrev pub opened : OpenArgs → Answers → Conn → List Bytes → List Arrival → NfcDisk
opened a r c frames rest = record (new_disk c a) {
  sock = record c { incoming = rest; sent = c.sent ++ frames };
  op_id = 4;
  handle = r.handle;
  sector_size = r.sector_size;
}

-- If the arguments of `open_disk` fit their formats and the server follows the protocol (its three
-- messages with a protocol version of 3 or later, and the replies to the four AIO requests, of
-- which the last has 40 bytes at least with the handle at offset 8, the file type 2 at 16 and the
-- sector size at 36), however the network cuts the stream, then the steps of `open_disk` over an
-- open socket return; the disk has the handle and the sector size of the reply, or 512 for a sector
-- size of 0, and the next operation id 4, the messages and requests went out in the order of the
-- protocol, and no byte behind the replies is read.
pub open_over_opens :
    (a : OpenArgs) (name_b op_b path_b : Bytes) (g : Greeting) (r : Answers) (ys : Bytes) (c : Conn)
    → CanOpen a name_b op_b path_b
    → CanSend c
    → Delivers c.incoming (greeting g (prepared r 0 (frame AioMsg.open_file 3 r.file ys)))
    → (rest : List Arrival) × (open_over a (new_disk c a)
        ≡ (ok tt, opened a r c (hello name_b op_b a.version ++ requests a path_b) rest))
      × Delivers rest ys
unfolding open_over open_steps
open_over_opens a name_b op_b path_b g r ys c can cs del =
    let (r1, e1, d1) =
      handshake_lem a.client_name a.op_id a.version name_b op_b g
        (prepared r 0 (frame AioMsg.open_file 3 r.file ys)) c can.greets cs del in
    let w1 : NfcDisk = record (new_disk c a) {
      sock = record c { incoming = r1; sent = c.sent ++ hello name_b op_b a.version };
    } in
    let (r2, e2, d2) =
      aio_prepare_lem r (frame AioMsg.open_file 3 r.file ys) w1
        (record { is_open = cs.is_open; no_faults = cs.no_faults }) (omega arith) can.size_fits
        can.count_fits d1 in
    let w2 : NfcDisk = ready w1 r2 in
    let (r3, e3, d3) =
      open_file_lem a.disk_path path_b a.read_only r ys w2 can.path_encoded can.path_fits
        (record { is_open = cs.is_open; no_faults = cs.no_faults }) (omega arith) d2 in
    let said : List Bytes = c.sent ++ hello name_b op_b a.version in
    let order =
      in_turn-append said (requests a path_b)
      ∙ append_assoc c.sent (hello name_b op_b a.version) (requests a path_b) in
    (
      r3,
      rw (e1, e2, e3)
          (ap
            (λ (t : List Bytes). (
              ok tt,
              record (file_opened r path_b a.read_only r3 w2) {
                sock = record c { incoming = r3; sent = t };
              },
            ))
            order),
      d3,
    )
