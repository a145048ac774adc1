-- ===== src/Aio.antt =====
-- NFC AIO frames and the `NfcDisk` object of openvixdisklib/nfc_open.py: the constants, the header,
-- `_next_op_id`, `_aio_send`, `_aio_recv_reply`, `_aio_roundtrip`, `_aio_extra_len`.
pub mod Frames
pub mod Yields
pub mod Touches
pub mod Exchange
pub mod Refused
use open_vix_disk_lib.Prelude.{
  ℕ, zero, suc, ◌+◌, ◌-◌, Bool, true, false, ◌||◌, not, List, [], ◌∷◌, ◌++◌, ltb, ◌==◌, length,
  if◌then◌else◌,
}
use open_vix_disk_lib.Error.{
  Result, ok, err, and_then, protocol_error, bad_extra_length, unsupported_compression, bad_magic,
  aio_error, unexpected_reply,
}
use open_vix_disk_lib.Exec.{
  Exec, ◌>>=◌, ◌>>◌, pure, raise, lift, proceed, gets, done, raise_if, zoom,
}
use open_vix_disk_lib.Struct.{Bytes, Field, u32, u64, pack, unpack_from}
use open_vix_disk_lib.Conn.{Conn, recvn, sendall}
use open_vix_disk_lib.AioMsg

abbrev pub nfc_aio_magic : ℕ
nfc_aio_magic = 0xA100DA7A

abbrev pub nfc_aio_hdr_size : ℕ
nfc_aio_hdr_size = 16

abbrev pub nfc_sector_size : ℕ
nfc_sector_size = 512

-- The defaults of `open_disk` and of `VixDiskLibHandle.open`.
abbrev nfc_aio_buffer_size : ℕ
nfc_aio_buffer_size = 65536

abbrev nfc_aio_buffer_count : ℕ
nfc_aio_buffer_count = 1

abbrev pub nfc_aio_io_write : ℕ
nfc_aio_io_write = 0

abbrev pub nfc_aio_io_read : ℕ
nfc_aio_io_read = 1

abbrev pub nfc_compression_none : ℕ
nfc_compression_none = 0

abbrev pub nfc_compression_fastlz : ℕ
nfc_compression_fastlz = 2

unfoldable pub pack_aio_hdr : ℕ → ℕ → ℕ → Result Bytes
pack_aio_hdr msg_type payload_size op_id =
    pack (u32 nfc_aio_magic ∷ u32 msg_type ∷ u32 payload_size ∷ u32 op_id ∷ [])

-- The four numbers of a header.
pub record Header : Type 0 where
  pub magic : ℕ
  pub msg_type : ℕ
  pub size : ℕ
  pub op_id : ℕ

unfoldable pub unpack_words : Bytes → Result Header
unpack_words hdr = and_then (unpack_from 4 hdr 0) λ magic.
    and_then (unpack_from 4 hdr 4) λ msg_type. and_then (unpack_from 4 hdr 8) λ size.
      and_then (unpack_from 4 hdr 12)
        λ op_id. ok (record { magic = magic; msg_type = msg_type; size = size; op_id = op_id })

unfoldable pub check_magic : Header → Result Header
check_magic h = if h.magic == nfc_aio_magic then ok h else err (protocol_error (bad_magic h.magic))

unfoldable pub check_type : Header → Result Header
check_type h =
    if h.msg_type == AioMsg.error then err (protocol_error (aio_error h.op_id h.size)) else ok h

unfoldable pub unpack_aio_hdr : Bytes → Result Header
unfolding check_magic check_type
unpack_aio_hdr hdr = and_then (unpack_words hdr) λ h. and_then (check_magic h) check_type

-- The size on the wire of a fragment's extra.
unfoldable pub aio_extra_len : ℕ → Bytes → ℕ → Result ℕ
aio_extra_len ctype body chunk_len =
    if ctype == nfc_compression_fastlz
    then and_then (unpack_from 4 body 36) (λ extra_len.
      if ltb extra_len 1
      then err (protocol_error (bad_extra_length extra_len chunk_len))
      else ok extra_len)
    else if ctype == nfc_compression_none
    then ok chunk_len
    else err (protocol_error (unsupported_compression ctype))

-- `op_id` is the field `_op_id`, and `closed` the field `_closed`.
pub record NfcDisk : Type 0 where
  pub sock : Conn
  pub op_id : ℕ
  pub path : List ℕ
  pub handle : ℕ
  pub sector_size : ℕ
  pub compression : ℕ
  pub aio_buffer_size : ℕ
  pub aio_buffer_count : ℕ
  pub closed : Bool

-- An action on the disk's socket.
abbrev pub on_sock : {A : Type 0} → Exec Conn A → Exec NfcDisk A
on_sock m d = zoom (λ d. d.sock) (λ c d. record d { sock = c }) m d

unfoldable pub next_op_id : Exec NfcDisk ℕ
next_op_id d = (ok d.op_id, record d { op_id = d.op_id + 1 })

-- One request: header, payload and extra in one `sendall`.
unfoldable pub aio_send : ℕ → Bytes → Bytes → Exec NfcDisk ℕ
unfolding next_op_id
aio_send msg_type payload extra = do
  op_id ← next_op_id
  hdr ← lift (pack_aio_hdr msg_type (length payload) op_id)
  on_sock (sendall (hdr ++ (payload ++ extra)))
  pure op_id

unfoldable pub recv_body : ℕ → Exec Conn Bytes
recv_body size = if size == 0 then pure [] else recvn size

-- `_aio_recv_reply`, which returns the type, the operation id and the payload.
unfoldable pub aio_recv_reply : Exec Conn (ℕ × ℕ × Bytes)
unfolding check_magic check_type recv_body
aio_recv_reply = do
  rhdr ← recvn nfc_aio_hdr_size
  words ← lift (unpack_words rhdr)
  h ← lift (check_magic words)
  body ← recv_body h.size
  lift (check_type h)
  pure (h.msg_type, h.op_id, body)

unfoldable pub aio_roundtrip : ℕ → Bytes → Bytes → ℕ → Exec NfcDisk Bytes
unfolding aio_send aio_recv_reply recv_body
aio_roundtrip msg_type payload extra extra_recv = do
  op_id ← aio_send msg_type payload extra
  (rtype, rop, body) ← on_sock aio_recv_reply
  raise_if (not (rtype == msg_type) || not (rop == op_id))
      (protocol_error (unexpected_reply rtype rop msg_type op_id))
  more ← on_sock (recv_body extra_recv)
  pure (body ++ more)
