-- ===== src/Read/Asked.antt =====
-- The request of `readinto` (openvixdisklib/nfc_open.py), and a server that takes it apart.
use open_vix_disk_lib.Prelude.{
  ℕ, ◌+◌, ◌*◌, ◌%◌, ◌^◌, ◌<◌, ◌≡◌, refl, ap, ◌∙◌, false, ◌&&◌, List, [], ◌∷◌, ◌++◌, arith, ◌==◌,
  ==_refl, length, length-replicate, replicate, take, drop, take-append_exact, drop-append_exact,
  All, append-nil, if◌then◌else◌, le→ltb_false,
}
use open_vix_disk_lib.Error.{Result, ok, err, and_then, struct_error}
use open_vix_disk_lib.Exec.{proceed}
use open_vix_disk_lib.Exec.Runs.{Outcome}
use open_vix_disk_lib.Struct.{Bytes, Field, unpack_from}
use open_vix_disk_lib.Struct.Laws.{Fits, layout, unpack-layout}
use open_vix_disk_lib.Conn.Send.{CanSend}
use open_vix_disk_lib.Fastlz.{Codec}
use open_vix_disk_lib.AioMsg
use open_vix_disk_lib.Aio.{NfcDisk, nfc_aio_hdr_size, nfc_aio_io_read, unpack_aio_hdr}
use open_vix_disk_lib.Aio.Frames.{
  IsU32, hdr_bytes, length-hdr_bytes, pack_aio_hdr_lem, unpack-pack_aio_hdr,
}
use open_vix_disk_lib.Read.Fragment.{Buffer, Reading, Progress, start}
use open_vix_disk_lib.Read.AnyServer.{Within, read_loop-Runs}
use open_vix_disk_lib.Read.{read, read_loop, result, finish_read, finish_bytes}
use open_vix_disk_lib.Read.Reassembly.{
  CanRead, request_fields, request, asked, transfer_lem, readinto_guarded,
}

-- A server of the protocol (docs/nfc_read.md): it takes a request for reading the file with that handle,
-- under that operation id and with the opcode 1 in the low half, and gives the offset on the disk and the
-- number of bytes asked for. What is no such request is an error.
abbrev read_payload : ℕ → Bytes → Result (ℕ × ℕ)
read_payload handle payload = and_then (unpack_from 8 payload 0) λ of_file.
    and_then (unpack_from 8 payload 8) λ opcode. and_then (unpack_from 8 payload 16) λ offset.
      and_then (unpack_from 8 payload 24) λ len.
        if (of_file == handle) && (opcode % 2 ^ 32 == 1) then ok (offset, len) else err struct_error

unfoldable pub server_read : ℕ → ℕ → Bytes → Result (ℕ × ℕ)
server_read handle op_id fr = and_then (unpack_aio_hdr (take nfc_aio_hdr_size fr)) λ h.
    if (h.msg_type == AioMsg.io) && (h.op_id == op_id) && (h.size == 44)
    then read_payload handle (drop nfc_aio_hdr_size fr)
    else err struct_error

opcode_of_opcode : (c : ℕ) → (nfc_aio_io_read + c * 2 ^ 32) % 2 ^ 32 ≡ 1
opcode_of_opcode c = omega arith

module _ (lz : Codec) (d : NfcDisk) (s len : ℕ) (fits : All Fits (request_fields d s len)) where
  abbrev fields : List Field
  fields = request_fields d s len

  read_payload_lem : read_payload d.handle (layout fields ++ []) ≡ ok (s * d.sector_size, len)
  read_payload_lem =
      let at0 = unpack-layout fields [] 0 fits (omega arith) in
      let at1 = unpack-layout fields [] 1 fits (omega arith) in
      let at2 = unpack-layout fields [] 2 fits (omega arith) in
      let at3 = unpack-layout fields [] 3 fits (omega arith) in
      rw (at0, at1, at2, at3, ==_refl d.handle, opcode_of_opcode d.compression) refl

  -- The server reads what the program asks for.
  pub server_read_lem :
      IsU32 d.op_id → server_read d.handle d.op_id (request d s len) ≡ ok (s * d.sector_size, len)
  unfolding server_read
  server_read_lem ho =
      let hdr : Bytes = hdr_bytes AioMsg.io 44 d.op_id in
      let size = length-hdr_bytes AioMsg.io 44 d.op_id in
      let front = take-append_exact hdr (layout fields) 16 size in
      let back = drop-append_exact hdr (layout fields) 16 size in
      let packed = pack_aio_hdr_lem AioMsg.io 44 d.op_id (omega arith) (omega arith) ho in
      let h = unpack-pack_aio_hdr AioMsg.io 44 d.op_id hdr packed in
      rw (front, back, h, ==_refl d.op_id) (rw (append-nil (layout fields)) at read_payload_lem)

-- The socket after reading has sent what it had sent before.
loop-sent :
    (b : Buffer) (len : ℕ) (P : Progress → Type 0) (s : Reading) (x : Result Progress) (t : Reading)
    → Outcome (Within len) P s x t
    → (finish_bytes (
        finish_read b
          (proceed (x, t) (λ p (u : Reading). (ok (result len false p), u))))).1.sock.sent
      ≡ s.disk.sock.sent
unfolding finish_read finish_bytes
loop-sent b len P s (ok p) t (w, _) = w.same.sent
loop-sent b len P s (err e) t (w, _) = w.same.sent

-- Whatever the server answers, `read` has sent its request, and nothing else.
pub read-sent :
    (lz : Codec) (d : NfcDisk) (s n : ℕ)
    → CanSend d.sock
    → IsU32 d.op_id
    → All Fits (request_fields d s (n * d.sector_size))
    → 0 < n
    → (read lz s n d).1.sock.sent ≡ d.sock.sent ++ (request d s (n * d.sector_size) ∷ [])
unfolding read
read-sent lz d s n can ho fits some_ =
    let len : ℕ = n * d.sector_size in
    let b : Buffer = record { readonly = false; bytes = replicate len 0 } in
    let lb : length b.bytes ≡ len = length-replicate len 0 in
    let can' : CanRead d b s n = record {
      some = some_;
      writable = refl;
      room = omega arith;
      can_send = can;
      op_id_fits = ho;
      fields_fit = fits;
    } in
    let r : Reading = record { disk = asked d s len; buf = b.bytes } in
    let m = read_loop lz len d.op_id len false start r in
    let e =
      readinto_guarded lz d b s n false can'
      ∙ ap (finish_read b) (transfer_lem lz d b.bytes s len false can ho fits) in
    rw e (
      rw (le→ltb_false n 1 some_) (
        loop-sent b len _ r m.0 m.1
          ((read_loop-Runs lz len len d.op_id false start (omega arith)).at r)))
