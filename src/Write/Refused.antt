-- ===== src/Write/Refused.antt =====
-- A `write` (openvixdisklib/nfc_open.py) whose reply is not its acknowledgement.
use open_vix_disk_lib.Prelude.{
  ℕ, ◌+◌, ◌*◌, ◌≤◌, ◌≡◌, refl, true, inl, inr, some, List, ◌++◌, arith, ◌==◌, ==_refl, length, blit,
  le→ltb_false,
}
use open_vix_disk_lib.Error.{Error, ok, err}
use open_vix_disk_lib.Struct.{Bytes}
use open_vix_disk_lib.Conn.{Arrival}
use open_vix_disk_lib.Conn.Receive.{Delivers}
use open_vix_disk_lib.Fastlz.{Codec, IsLawful}
use open_vix_disk_lib.AioMsg
use open_vix_disk_lib.Aio.{NfcDisk, next_op_id}
use open_vix_disk_lib.Aio.Frames.{IsU32, frame}
use open_vix_disk_lib.Aio.Refused.{refusal, aio_recv_reply_refused, Refuses}
use open_vix_disk_lib.Write.{write_loop, write}
use open_vix_disk_lib.Write.Fragments.{expected}
use open_vix_disk_lib.Write.Sent.{store, CanWrite, sending, write_loop_lem}

module _ (lz : Codec) (d : NfcDisk) (start_sector num_sectors : ℕ) (bytes : Bytes) where
  -- The reply is read last, behind the guards and the frames.
  reply_raised :
      (rtype rop : ℕ) (body ys : Bytes) (e : Error) (d2 : NfcDisk)
      → CanWrite d start_sector num_sectors bytes
      → write_loop lz
          (length bytes)
          d.op_id
          (start_sector * d.sector_size)
          bytes
          0
          (record d { op_id = d.op_id + 1 })
        ≡ (ok tt, d2)
      → Refuses d2.sock AioMsg.io d.op_id rtype rop body ys e
      → (rest : List Arrival) × (write lz start_sector num_sectors bytes d
          ≡ (err e, record d2 { sock = record d2.sock { incoming = rest } }))
        × Delivers rest ys
  unfolding write next_op_id
  reply_raised rtype rop body ys e d2 can sent (rest, heard, del) =
      let same : (length bytes == num_sectors * d.sector_size) ≡ true =
        rw can.size (==_refl (num_sectors * d.sector_size)) in
      let some_ = le→ltb_false num_sectors 1 can.some in
      (
        rest,
        elim heard [
          | inl run_e ↦ rw (some_, same, sent, run_e) refl
          | inr (run_e, w, raised) ↦ rw (some_, same, sent, run_e, w, raised) refl
        ],
        del,
      )

  -- With a lawful FastLZ module, a call of `write` that can be sent and whose reply is an ERROR
  -- frame, or a frame of another type or operation id than the request has: it raises the protocol
  -- error that names the numbers of that frame, has used one operation id, has sent frames that a
  -- server which takes only fragments of a write of that many bytes under that id and to the disk's
  -- handle all takes, and which put the bytes at the sector, and has read the reply whole and no
  -- byte behind it.
  pub write_refused :
      (rtype rop : ℕ) (body ys disk : Bytes) (e : Error)
      → IsLawful lz
      → CanWrite d start_sector num_sectors bytes
      → IsU32 rtype
      → IsU32 rop
      → IsU32 (length body)
      → refusal AioMsg.io d.op_id rtype rop (length body) ≡ some e
      → Delivers d.sock.incoming (frame rtype rop body ys)
      → start_sector * d.sector_size + length bytes ≤ length disk
      → (frames : List Bytes) × (rest : List Arrival) × (write lz start_sector num_sectors bytes d
          ≡ (
            err e,
            record d {
              op_id = d.op_id + 1;
              sock = record d.sock { incoming = rest; sent = d.sock.sent ++ frames };
            },
          ))
        × (store lz (expected d d.op_id (length bytes)) frames disk
            ≡ ok (blit (start_sector * d.sector_size) bytes disk))
        × Delivers rest ys
  write_refused rtype rop body ys disk e law can hrt hro hb refuse del room =
      let off : ℕ = start_sector * d.sector_size in
      let z : off + 0 ≡ off = omega arith in
      let d1 : NfcDisk = record d { op_id = d.op_id + 1 } in
      let (frames, sent, stored, _) =
        write_loop_lem lz law d.op_id off bytes (length bytes) 0 d1
          (record { is_open = can.can_send.is_open; no_faults = can.can_send.no_faults })
          can.op_id_fits can.offset_fits can.size_fits can.handle_fits can.buffer (omega arith) in
      let d2 : NfcDisk = sending frames d1 in
      let heard =
        aio_recv_reply_refused d2.sock AioMsg.io d.op_id rtype rop body ys e can.can_send.is_open
          hrt hro hb refuse del in
      let (rest, run_e, del') = reply_raised rtype rop body ys e d2 can sent heard in
      (frames, rest, run_e, rw z at (stored disk room), del')
