-- ===== src/Open.antt =====
-- Opening and closing a disk over an NFC socket (openvixdisklib/nfc_open.py): `_handshake`,
-- `_aio_prepare`, `_parse_open_reply`, the body of `open_disk` and `NfcDisk.close`.
--
-- `open_disk` makes the `NfcDisk` object after the handshake; here it is there from the start, with the
-- fields that the constructor gives it, since the handshake reads none of them.
pub mod Cleanup
pub mod Marks
pub mod Ends
pub mod Yields
pub mod Total
pub mod Greeting
pub mod Prepared
pub mod Opened
pub mod Closed
use open_vix_disk_lib.Prelude.{
  ℕ, ◌-◌, Bool, true, false, ◌&&◌, not, List, [], ◌∷◌, ◌++◌, ltb, ◌==◌, length, replicate,
  if◌then◌else◌,
}
use open_vix_disk_lib.Error.{
  Result, ok, err, and_then, protocol_error, value_error, not_implemented, unexpected_message,
  version_too_old, open_reply_too_short, not_a_disk, no_buffer_size, no_buffer_count,
  compression_type,
}
use open_vix_disk_lib.Exec.{
  Exec, ◌>>=◌, ◌>>◌, pure, raise, lift, gets, proceed, done, modify, raise_if, zoom, on_error,
  clean_up, finally,
}
use open_vix_disk_lib.Struct.{Bytes, u32, u64, pack, unpack_from}
use open_vix_disk_lib.Conn.{Conn, close, sendall, send_nfc_msg, recv_nfc_msg, ljust}
use open_vix_disk_lib.Text.{Text, encode_ascii, encode_utf8}
use open_vix_disk_lib.AioMsg
use open_vix_disk_lib.NfcMsg
use open_vix_disk_lib.Aio.{
  NfcDisk, on_sock, aio_roundtrip, nfc_sector_size, nfc_compression_none, nfc_compression_fastlz,
}

abbrev pub nfc_protocol_version : ℕ
nfc_protocol_version = 11

abbrev pub nfc_session_feature_interruption_switch : ℕ
nfc_session_feature_interruption_switch = 3

abbrev pub nfc_disk : ℕ
nfc_disk = 2

abbrev pub nfc_open_flags_read_only : ℕ
nfc_open_flags_read_only = 0x1E

abbrev pub nfc_open_flags_read_write : ℕ
nfc_open_flags_read_write = 0x1A

-- The bytes of "PlainText".
abbrev pub plain_text : Bytes
plain_text = 80 ∷ 108 ∷ 97 ∷ 105 ∷ 110 ∷ 84 ∷ 101 ∷ 120 ∷ 116 ∷ []

-- `_recv_nfc_msg`, and the check of the type that came; the message's body is returned.
unfoldable pub expect_msg : ℕ → Exec Conn Bytes
expect_msg expected = do
  (reply_type, body) ← recv_nfc_msg
  raise_if (not (reply_type == expected)) (protocol_error (unexpected_message expected reply_type))
  pure body

unfoldable pub handshake : Text → Text → ℕ → Exec Conn (Unit {0})
unfolding expect_msg
handshake client_name op_id version = do
  send_nfc_msg NfcMsg.handshake plain_text
  send_nfc_msg NfcMsg.session_params []
  expect_msg NfcMsg.session_params_reply
  version_body ← lift (pack (u32 version ∷ []))
  send_nfc_msg NfcMsg.version version_body
  body ← expect_msg NfcMsg.version
  remote_version ← lift (unpack_from 4 body 0)
  raise_if (ltb remote_version 3) (protocol_error (version_too_old remote_version))
  name_b ← lift (encode_ascii client_name)
  op_b ← lift (encode_ascii op_id)
  lengths ← lift (pack (u32 (length name_b) ∷ u32 (length op_b) ∷ []))
  send_nfc_msg NfcMsg.connection_data lengths
  sendall name_b
  sendall op_b
  features ← lift (pack (u32 nfc_session_feature_interruption_switch ∷ []))
  send_nfc_msg NfcMsg.session_features features
  send_nfc_msg NfcMsg.aio_session_open []
  expect_msg NfcMsg.aio_session_open
  pure tt

unfoldable pub aio_prepare : Exec NfcDisk (Unit {0})
aio_prepare = do
  disk ← gets (λ d. d)
  open_session ←
      lift (pack (u32 0 ∷ u32 disk.aio_buffer_size ∷ u32 disk.aio_buffer_count ∷ u32 0 ∷ []))
  aio_roundtrip AioMsg.open_session open_session [] 0
  aio_roundtrip AioMsg.set_sock_opts (replicate 12 0) [] 0
  res_pool ← lift (pack (u32 1 ∷ []))
  aio_roundtrip AioMsg.set_res_pool res_pool [] 0
  pure tt

-- The handle and the sector size.
unfoldable pub parse_open_reply : Bytes → Result (ℕ × ℕ)
parse_open_reply body =
    if ltb (length body) 40
    then err (protocol_error (open_reply_too_short (length body)))
    else and_then (unpack_from 8 body 8) λ handle. and_then (unpack_from 4 body 16) λ file_type.
      and_then (unpack_from 4 body 20) λ flags. and_then (unpack_from 4 body 36) λ sector_size.
        if not (file_type == nfc_disk)
        then err (protocol_error (not_a_disk file_type))
        else ok (handle, if sector_size == 0 then nfc_sector_size else sector_size)

-- `OPEN_FILE`, and the fields that its reply sets.
unfoldable pub open_file : Text → Bool → Exec NfcDisk (Unit {0})
open_file disk_path read_only = do
  path_b ← lift (encode_utf8 disk_path)
  open_body ← lift (
      pack (
        u32 (length path_b)
        ∷ u32 0
        ∷ u32 0
        ∷ u32 0
        ∷ u32 nfc_disk
        ∷ u32 (if read_only then nfc_open_flags_read_only else nfc_open_flags_read_write)
        ∷ []))
  reply ← aio_roundtrip AioMsg.open_file (ljust 60 open_body) path_b 0
  (handle, sector_size) ← lift (parse_open_reply reply)
  modify (λ d. record d { handle = handle; sector_size = sector_size })

-- The arguments of `open_disk` behind the session.
pub record OpenArgs : Type 0 where
  pub disk_path : Text
  pub client_name : Text
  pub op_id : Text
  pub version : ℕ
  pub read_only : Bool
  pub compression : ℕ
  pub aio_buffer_size : ℕ
  pub aio_buffer_count : ℕ

unfoldable pub check_args : OpenArgs → Result (Unit {0})
check_args a =
    if ltb a.aio_buffer_size 1
    then err (value_error no_buffer_size)
    else if ltb a.aio_buffer_count 1
    then err (value_error no_buffer_count)
    else if not (a.compression == nfc_compression_none)
        && not (a.compression == nfc_compression_fastlz)
    then err (not_implemented (compression_type a.compression))
    else ok tt

-- `NfcDisk(sock, disk_path, handle=0, sector_size=NFC_SECTOR_SIZE, ...)`
abbrev pub new_disk : Conn → OpenArgs → NfcDisk
new_disk sock a = record {
  sock = sock;
  op_id = 0;
  path = a.disk_path;
  handle = 0;
  sector_size = nfc_sector_size;
  compression = a.compression;
  aio_buffer_size = a.aio_buffer_size;
  aio_buffer_count = a.aio_buffer_count;
  closed = false;
}

abbrev pub close_sock : NfcDisk → NfcDisk
close_sock d = record d { sock = close d.sock }

unfoldable pub open_steps : OpenArgs → Exec NfcDisk (Unit {0})
unfolding handshake aio_prepare open_file
open_steps a = do
  on_sock (handshake a.client_name a.op_id a.version)
  aio_prepare
  open_file a.disk_path a.read_only

-- `try: ... except Exception: sock.close(); raise`
unfoldable pub open_over : OpenArgs → Exec NfcDisk (Unit {0})
open_over a = on_error close_sock (open_steps a)

-- The calls under `try` in `NfcDisk.close`.
unfoldable pub close_steps : Exec NfcDisk (Unit {0})
close_steps = do
  d ← gets (λ d. d)
  file_body ← lift (pack (u64 d.handle ∷ []))
  aio_roundtrip AioMsg.close_file file_body [] 0
  session_body ← lift (pack (u32 0 ∷ []))
  aio_roundtrip AioMsg.close_session session_body [] 0
  on_sock (send_nfc_msg NfcMsg.session_complete [])

unfoldable pub close_disk : Exec NfcDisk (Unit {0})
close_disk d =
    if d.closed then (ok tt, d) else finally close_sock close_steps (record d { closed = true })

-- `__enter__` and `__exit__`: what `close` raises replaces what the body returned or raised.
unfoldable pub with_disk : {A : Type 0} → Exec NfcDisk A → Exec NfcDisk A
unfolding close_disk
with_disk body d = let (r, d') = body d in proceed (close_disk d') (λ _ d''. (r, d''))
