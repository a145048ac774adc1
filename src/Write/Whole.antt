-- ===== src/Write/Whole.antt =====
-- `write` (openvixdisklib/nfc_open.py) as a whole: the frames, the one reply, and the guards.
use open_vix_disk_lib.Prelude.{
  ℕ, ◌+◌, ◌*◌, ◌≤◌, ◌≡◌, refl, true, List, ◌++◌, arith, ◌==◌, ==_refl, length, blit, All,
  le→ltb_false,
}
use open_vix_disk_lib.Error.{ok}
use open_vix_disk_lib.Struct.{Bytes}
use open_vix_disk_lib.Conn.{Arrival}
use open_vix_disk_lib.Conn.Receive.{Delivers}
use open_vix_disk_lib.Fastlz.{Codec, IsLawful}
use open_vix_disk_lib.AioMsg
use open_vix_disk_lib.Aio.{NfcDisk, next_op_id, aio_recv_reply}
use open_vix_disk_lib.Aio.Frames.{IsU32, frame}
use open_vix_disk_lib.Aio.Exchange.{aio_recv_reply_lem}
use open_vix_disk_lib.Write.{write_loop, write}
use open_vix_disk_lib.Write.Fragments.{expected}
use open_vix_disk_lib.Write.Sent.{store, CanWrite, sending, write_loop_lem}

write_run :
    (lz : Codec) (d : NfcDisk) (start_sector num_sectors : ℕ) (bytes body : Bytes) (d2 : NfcDisk)
    (rest : List Arrival)
    → CanWrite d start_sector num_sectors bytes
    → write_loop lz
        (length bytes)
        d.op_id
        (start_sector * d.sector_size)
        bytes
        0
        (record d { op_id = d.op_id + 1 })
      ≡ (ok tt, d2)
    → aio_recv_reply d2.sock ≡ (ok (AioMsg.io, d.op_id, body), record d2.sock { incoming = rest })
    → write lz start_sector num_sectors bytes d
      ≡ (ok tt, record d2 { sock = record d2.sock { incoming = rest } })
unfolding write next_op_id
write_run lz d start_sector num_sectors bytes body d2 rest can e e' =
    let same : (length bytes == num_sectors * d.sector_size) ≡ true =
      rw can.size (==_refl (num_sectors * d.sector_size)) in
    rw (le→ltb_false num_sectors 1 can.some, same, e, e', ==_refl d.op_id) refl

-- With a lawful FastLZ module, a call of `write` that can be sent and whose acknowledgement, with a
-- payload shorter than 2^32 bytes, is delivered returns and uses one operation id; a server whose
-- disk reaches as far as the write, and which takes only fragments of a write of that many bytes
-- under that id and to the disk's handle, takes every frame that was sent, and ends with the bytes
-- at the sector and the rest of its disk unchanged; no frame is longer than 60 bytes and a buffer,
-- and no byte behind the acknowledgement is read.
pub write_stores :
    (lz : Codec) (d : NfcDisk) (start_sector num_sectors : ℕ) (bytes body ys disk : Bytes)
    → IsLawful lz
    → CanWrite d start_sector num_sectors bytes
    → IsU32 (length body)
    → Delivers d.sock.incoming (frame AioMsg.io d.op_id body ys)
    → start_sector * d.sector_size + length bytes ≤ length disk
    → (frames : List Bytes) × (rest : List Arrival) × (write lz start_sector num_sectors bytes d ≡ (
      ok tt,
      record d {
        op_id = d.op_id + 1;
        sock = record d.sock { incoming = rest; sent = d.sock.sent ++ frames };
      },
    ))
      × (store lz (expected d d.op_id (length bytes)) frames disk
          ≡ ok (blit (start_sector * d.sector_size) bytes disk))
      × All (λ f. length f ≤ 60 + d.aio_buffer_size) frames
      × Delivers rest ys
write_stores lz d start_sector num_sectors bytes body ys disk law can hb del room =
    let off : ℕ = start_sector * d.sector_size in
    let d1 : NfcDisk = record d { op_id = d.op_id + 1 } in
    let z : off + 0 ≡ off = omega arith in
    let (frames, e, stored, bound) =
      write_loop_lem lz law d.op_id off bytes (length bytes) 0 d1
        (record { is_open = can.can_send.is_open; no_faults = can.can_send.no_faults })
        can.op_id_fits can.offset_fits can.size_fits can.handle_fits can.buffer (omega arith) in
    let d2 : NfcDisk = sending frames d1 in
    let (rest, e', del') =
      aio_recv_reply_lem d2.sock AioMsg.io d.op_id body ys can.can_send.is_open (omega arith)
        can.op_id_fits hb (omega arith) del in
    (
      frames,
      rest,
      write_run lz d start_sector num_sectors bytes body d2 rest can e e',
      rw z at (stored disk room),
      bound,
      del',
    )
