-- ===== src/WriteProbe.antt =====
-- docs/probing_samples/nfc_write_probe.py: its `recvn`, `open_rw` and `try_io`, which try open flags and
-- requests of NFC.
use open_vix_disk_lib.Prelude.{
  ℕ, zero, suc, ◌-◌, Bool, false, ◌&&◌, [], ◌∷◌, ◌++◌, leb, ltb, ◌==◌, codes, length, if◌then◌else◌,
}
use open_vix_disk_lib.Error.{ok, err, out_of_fuel, runtime_error}
use open_vix_disk_lib.Exec.{Exec, ◌>>=◌, ◌>>◌, pure, lift, gets, modify, proceed, done}
use open_vix_disk_lib.Struct.{Bytes, u32, u64, pack, unpack_from}
use open_vix_disk_lib.Text.{Text, encode_utf8}
use open_vix_disk_lib.Conn.{Conn, recv, sendall, ljust}
use open_vix_disk_lib.AioMsg
use open_vix_disk_lib.Aio.{NfcDisk, on_sock, next_op_id, pack_aio_hdr, unpack_words, aio_roundtrip}
use open_vix_disk_lib.Open.{
  handshake, aio_prepare, parse_open_reply, nfc_disk, nfc_protocol_version,
}
use open_vix_disk_lib.World.{World, Env, on_disk}
use open_vix_disk_lib.Session.{NfcAuthSession, takeover_authd_socket, new_disk_over}
use open_vix_disk_lib.Handle.{open_args}

-- The loop of `recvn`. A round receives a byte at least, so `size` rounds are enough.
unfoldable pub receive_rest : ℕ → ℕ → Bytes → Exec Conn Bytes
receive_rest zero size buf c = if ltb (length buf) size then (err out_of_fuel, c) else (ok buf, c)
receive_rest (suc fuel) size buf c =
    let more = proceed (recv (size - length buf) c) (λ chunk c'.
      let rest = receive_rest fuel size (buf ++ chunk) c' in
      if length chunk == 0 then (err (runtime_error (length buf) size), c') else rest) in
    if ltb (length buf) size then more else (ok buf, c)

-- `recvn`
unfoldable pub recvn_appended : ℕ → Exec Conn Bytes
unfolding receive_rest
recvn_appended size = receive_rest size size []

-- `open_rw` behind the take-over of the socket. What it prints is left out, with the unpacking of the
-- flags, which a reply that `_parse_open_reply` accepts is long enough for.
unfoldable pub open_flags : Text → ℕ → Exec NfcDisk (Unit {0})
open_flags disk_path oflag = do
  on_sock (handshake (codes "vddk") (codes "nbdmode") nfc_protocol_version)
  aio_prepare
  path_b ← lift (encode_utf8 disk_path)
  open_body ←
      lift (pack (u32 (length path_b) ∷ u32 0 ∷ u32 0 ∷ u32 0 ∷ u32 nfc_disk ∷ u32 oflag ∷ []))
  reply ← aio_roundtrip AioMsg.open_file (ljust 60 open_body) path_b 0
  (handle, sector_size) ← lift (parse_open_reply reply)
  modify (λ d. record d { handle = handle; sector_size = sector_size })

-- The disk has the defaults of `NfcDisk`; no socket is closed when a step raises.
unfoldable pub open_rw : Env → NfcAuthSession → Text → ℕ → Exec World ℕ
open_rw env session disk_path oflag = do
  sock ← takeover_authd_socket env session.authd_sock
  i ← new_disk_over sock (open_args disk_path false 0 65536 1)
  on_disk i (open_flags disk_path oflag)
  pure i

-- `extra` of the reply, if it announces one.
unfoldable pub reply_extra : ℕ → ℕ → Bytes → Exec Conn Bytes
unfolding recvn_appended
reply_extra rtype rsize body =
    if (rtype == AioMsg.io) && leb 36 rsize
    then (do
      chunk_len ← lift (unpack_from 4 body 32)
      if ltb 0 chunk_len && leb chunk_len 65536 then recvn_appended chunk_len else pure [])
    else pure []

-- The type, the size, the body and the extra of the reply, whatever its magic number.
unfoldable pub try_io : ℕ → ℕ → Bytes → Bool → Exec NfcDisk (ℕ × ℕ × Bytes × Bytes)
unfolding next_op_id reply_extra recvn_appended
try_io opcode flags_field data_ send_extra = do
  disk ← gets (λ d. d)
  payload ← lift (
      pack (
        u64 disk.handle
        ∷ u64 opcode
        ∷ u64 0
        ∷ u64 (length data_)
        ∷ u32 (length data_)
        ∷ u32 (length data_)
        ∷ u32 flags_field
        ∷ []))
  op_id ← next_op_id
  hdr ← lift (pack_aio_hdr AioMsg.io (length payload) op_id)
  on_sock (sendall (hdr ++ payload))
  if send_extra then on_sock (sendall data_) else done
  rhdr ← on_sock (recvn_appended 16)
  h ← lift (unpack_words rhdr)
  body ← on_sock (if h.size == 0 then pure [] else recvn_appended h.size)
  extra ← on_sock (reply_extra h.msg_type h.size body)
  pure (h.msg_type, h.size, body, extra)
