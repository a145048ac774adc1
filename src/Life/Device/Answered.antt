-- ===== src/Life/Device/Answered.antt =====
-- One `read` or `write` (openvixdisklib/nfc_open.py) of a sequence of calls: what a server answers, and
-- what the guards refuse.
use open_vix_disk_lib.Prelude.{
  ℕ, ◌+◌, ◌*◌, ◌<◌, ◌≡◌, refl, sym, ◌∙◌, false, true, List, [], ◌∷◌, ◌++◌, arith, ltb, ◌==◌, length,
  All, replicate, length-replicate, le→ltb_false,
}
use open_vix_disk_lib.Error.{ok, err, value_error, no_sectors, write_length}
use open_vix_disk_lib.Struct.{Bytes}
use open_vix_disk_lib.Struct.Laws.{Fits}
use open_vix_disk_lib.Conn.{Conn}
use open_vix_disk_lib.Conn.Receive.{Delivers}
use open_vix_disk_lib.Conn.Send.{CanSend}
use open_vix_disk_lib.Fastlz.{Codec}
use open_vix_disk_lib.Aio.{NfcDisk}
use open_vix_disk_lib.Aio.Frames.{IsU32}
use open_vix_disk_lib.Read.Fragment.{Buffer}
use open_vix_disk_lib.Read.{read}
use open_vix_disk_lib.Read.Replies.{Reply}
use open_vix_disk_lib.Read.Reassembly.{
  replies, Accepted, CanRead, request_fields, request, readinto-replies,
}
use open_vix_disk_lib.Read.Contents.{IsPartition, placed_whole}
use open_vix_disk_lib.Write.{write}
use open_vix_disk_lib.Life.Device.{read_sectors, write_sectors, perform, written}

pub append_cancel : (xs ys zs : List Bytes) → xs ++ ys ≡ xs ++ zs → ys ≡ zs
append_cancel [] ys zs h = h
append_cancel (x ∷ xs) ys zs h = append_cancel xs ys zs cc

-- `read` of sectors that the server answers.
pub read_answered :
    (lz : Codec) (d : NfcDisk) (s n : ℕ) (contents : Bytes) (fs : List Reply) (ys : Bytes)
    → CanSend d.sock
    → IsU32 d.op_id
    → All Fits (request_fields d s (n * d.sector_size))
    → 0 < n
    → length contents ≡ n * d.sector_size
    → Accepted lz (n * d.sector_size) [] fs
    → IsPartition contents fs
    → Delivers d.sock.incoming (replies d.op_id fs ++ ys)
    → (c : Conn) × (read lz s n d ≡ (ok contents, record d { op_id = d.op_id + 1; sock = c }))
      × CanSend c
      × Delivers c.incoming ys
unfolding read
read_answered lz d s n contents fs ys can ho fits some_ size acc part del =
    let len : ℕ = n * d.sector_size in
    let b : Buffer = record { readonly = false; bytes = replicate len 0 } in
    let lb : length b.bytes ≡ len = length-replicate len 0 in
    let can' : CanRead d b s n = record {
      some = some_;
      writable = refl;
      room = omega arith;
      can_send = can;
      op_id_fits = ho;
      fields_fit = fits;
    } in
    let (rest, e, del') = readinto-replies lz d b s n can' fs ys acc (part.sum ∙ size) del in
    let filled = placed_whole lz contents fs b.bytes (rw size acc) part (lb ∙ sym size) in
    (
      record d.sock { incoming = rest; sent = d.sock.sent ++ (request d s len ∷ []) },
      rw e (rw (le→ltb_false n 1 some_, filled) refl),
      record { is_open = can.is_open; no_faults = can.no_faults },
      del',
    )

pub read_refused :
    (lz : Codec) (d : NfcDisk) (s n : ℕ)
    → ltb n 1 ≡ true
    → perform lz (read_sectors s n) d ≡ (err (value_error no_sectors), d)
unfolding perform read
read_refused lz d s n t = rw t refl

pub write_refused :
    (lz : Codec) (d : NfcDisk) (s n : ℕ) (bytes : Bytes)
    → ltb n 1 ≡ true
    → perform lz (write_sectors s n bytes) d ≡ (err (value_error no_sectors), d)
unfolding perform written write
write_refused lz d s n bytes t = rw t refl

pub write_wrong_length :
    (lz : Codec) (d : NfcDisk) (s n : ℕ) (bytes : Bytes)
    → ltb n 1 ≡ false
    → (length bytes == n * d.sector_size) ≡ false
    → perform lz (write_sectors s n bytes) d
      ≡ (err (value_error (write_length (length bytes) (n * d.sector_size))), d)
unfolding perform written write
write_wrong_length lz d s n bytes t u = rw (t, u) refl

pub perform_written :
    (lz : Codec) (d d' : NfcDisk) (s n : ℕ) (bytes : Bytes)
    → write lz s n bytes d ≡ (ok tt, d')
    → perform lz (write_sectors s n bytes) d ≡ (ok [], d')
unfolding perform written
perform_written lz d d' s n bytes e = rw e refl
