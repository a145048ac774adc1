-- ===== src/Open/Closed.antt =====
-- `NfcDisk.close` (openvixdisklib/nfc_open.py) with a server that follows the protocol.
use open_vix_disk_lib.Prelude.{
  ◌+◌, ◌^◌, ◌<◌, ◌≡◌, ap, true, false, List, [], ◌∷◌, ◌++◌, arith, length,
}
use open_vix_disk_lib.Error.{ok}
use open_vix_disk_lib.Struct.{Bytes, u32, u64}
use open_vix_disk_lib.Struct.Laws.{layout, length-layout, pack-Fits}
use open_vix_disk_lib.Conn.{Arrival}
use open_vix_disk_lib.Conn.Receive.{Delivers}
use open_vix_disk_lib.Conn.Send.{CanSend, in_turn-append}
use open_vix_disk_lib.Conn.Messages.{message, send_nfc_msg_lem}
use open_vix_disk_lib.AioMsg
use open_vix_disk_lib.NfcMsg
use open_vix_disk_lib.Aio.{NfcDisk}
use open_vix_disk_lib.Aio.Frames.{IsU32, frame}
use open_vix_disk_lib.Open.{close_steps, close_disk}
use open_vix_disk_lib.Open.Prepared.{answered, plain_roundtrip}

-- The disk is open, and its numbers fit their formats.
pub record CanClose (d : NfcDisk) : Type 0 where
  pub open_yet : d.closed ≡ false
  pub can_send : CanSend d.sock
  pub op_ids_fit : d.op_id + 1 < 2 ^ 32
  pub handle_fits : d.handle < 2 ^ 64

-- What goes out.
abbrev pub farewell : NfcDisk → List Bytes
farewell d =
    frame AioMsg.close_file d.op_id (layout (u64 d.handle ∷ [])) []
    ∷ frame AioMsg.close_session (d.op_id + 1) (layout (u32 0 ∷ [])) []
    ∷ message NfcMsg.session_complete []
    ∷ []

abbrev pub gone : NfcDisk → List Arrival → NfcDisk
gone d rest = record d {
  closed = true;
  op_id = d.op_id + 1 + 1;
  sock = record d.sock { incoming = rest; sent = d.sock.sent ++ farewell d; is_open = false };
}

-- If a disk that is not marked as closed has an open socket that can send, its numbers fit their
-- formats, and the network delivers the replies to CLOSE_FILE and CLOSE_SESSION, then
-- `NfcDisk.close` returns, has sent the two requests and the last message in this order, has used
-- two operation ids, and leaves the disk marked and its socket closed, with no byte behind the
-- replies read.
pub close_disk_lem :
    (d : NfcDisk) (file session ys : Bytes)
    → CanClose d
    → IsU32 (length file)
    → IsU32 (length session)
    → Delivers d.sock.incoming
        (frame AioMsg.close_file d.op_id file (frame AioMsg.close_session (d.op_id + 1) session ys))
    → (rest : List Arrival) × (close_disk d ≡ (ok tt, gone d rest)) × Delivers rest ys
unfolding close_disk close_steps
close_disk_lem d file session ys can hf hs del =
    let l1 = length-layout (u64 d.handle ∷ []) in
    let l2 = length-layout (u32 0 ∷ []) in
    let w : NfcDisk = record d { closed = true } in
    let (r1, e1, d1) =
      plain_roundtrip AioMsg.close_file (layout (u64 d.handle ∷ [])) [] file
        (frame AioMsg.close_session (d.op_id + 1) session ys) w can.can_send (omega arith)
        (omega (arith, can.op_ids_fit)) (omega arith) hf (λ e. omega arith) del in
    let w1 : NfcDisk = answered AioMsg.close_file (layout (u64 d.handle ∷ [])) [] r1 w in
    let can1 : CanSend w1.sock = record {
      is_open = can.can_send.is_open;
      no_faults = can.can_send.no_faults;
    } in
    let (r2, e2, d2) =
      plain_roundtrip AioMsg.close_session (layout (u32 0 ∷ [])) [] session ys w1 can1 (omega arith)
        can.op_ids_fit (omega arith) hs (λ e. omega arith) d1 in
    let w2 : NfcDisk = answered AioMsg.close_session (layout (u32 0 ∷ [])) [] r2 w1 in
    let last =
      send_nfc_msg_lem NfcMsg.session_complete [] w2.sock
        (record { is_open = can.can_send.is_open; no_faults = can.can_send.no_faults })
        (omega arith) (omega arith) in
    (
      r2,
      rw
          (
            can.open_yet,
            pack-Fits (u64 d.handle ∷ []) (can.handle_fits, tt),
            e1,
            pack-Fits (u32 0 ∷ []) (omega arith),
            e2,
            last,
          )
          (ap
            (λ (t : List Bytes).
              (ok tt, record w2 { sock = record w2.sock { sent = t; is_open = false } }))
            (in_turn-append d.sock.sent (farewell d))),
      d2,
    )
