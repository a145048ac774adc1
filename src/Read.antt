-- ===== src/Read.antt =====
-- `NfcDisk.readinto` and `NfcDisk.read` (openvixdisklib/nfc_open.py). The pip module `fastlz` is the
-- section's parameter. Sector numbers are natural numbers.
pub mod Fragment
pub mod Rounds
pub mod Replies
pub mod Reassembly
pub mod Asked
pub mod Refused
pub mod Contents
pub mod Packed
pub mod Unpacked
pub mod Checks
pub mod AnyServer
pub mod Total
use open_vix_disk_lib.Prelude.{
  ℕ, zero, suc, ◌+◌, ◌*◌, ◌/◌, ◌^◌, Bool, true, false, ◌||◌, not, List, [], ◌∷◌, ◌++◌, ltb, ◌==◌,
  length, replicate, blit, if◌then◌else◌,
}
use open_vix_disk_lib.Error.{
  Result, ok, err, Error, and_then, protocol_error, value_error, buffer_read_only, buffer_too_small,
  out_of_fuel, unexpected_reply, reply_too_short, invalid_chunk, packed_too_long,
  fragment_not_decompressed, fragment_length, unsupported_compression, no_sectors,
}
use open_vix_disk_lib.Exec.{
  Exec, ◌>>=◌, ◌>>◌, pure, raise, lift, gets, proceed, done, modify, raise_if, zoom,
}
use open_vix_disk_lib.Struct.{Bytes, u32, u64, pack, unpack_from}
use open_vix_disk_lib.Conn.{Conn, recvn, sendall, Target, recvn_into}
use open_vix_disk_lib.Fastlz.{Codec, decompress}
use open_vix_disk_lib.AioMsg
use open_vix_disk_lib.Aio.{
  NfcDisk, on_sock, next_op_id, pack_aio_hdr, Header, unpack_aio_hdr, aio_extra_len,
  nfc_aio_hdr_size, nfc_aio_io_read, nfc_compression_none, nfc_compression_fastlz,
}
use open_vix_disk_lib.Read.Fragment.{
  ReadFragment, ReadResult, Buffer, Reading, writable_bytes, Progress, start, Chunk, in_disk,
  receive_at, parse_chunk, recv_io_reply, advance, receive_extra,
}

unfoldable pub read_request : NfcDisk → ℕ → ℕ → Result Bytes
read_request d start_sector len = pack (
    u64 d.handle
    ∷ u64 (nfc_aio_io_read + d.compression * 2 ^ 32)
    ∷ u64 (start_sector * d.sector_size)
    ∷ u64 len
    ∷ u32 len
    ∷ u32 len
    ∷ u32 0
    ∷ [])

unfoldable pub result : ℕ → Bool → Progress → ReadResult
result len skip p = record {
  uncompressed_length = len;
  compressed_length = p.wire_bytes;
  fragments = if skip then p.fragments else [];
}

pub finish_read : Buffer → Result ReadResult × Reading → Result ReadResult × NfcDisk × Buffer
finish_read b (r, s) = (r, s.disk, record b { bytes = s.buf })

unfoldable pub finish_bytes : Result ReadResult × NfcDisk × Buffer → Result Bytes × NfcDisk
finish_bytes (ok _, d, b) = (ok b.bytes, d)
finish_bytes (err e, d, b) = (err e, d)

module _ (lz : Codec) where
  -- One round of the loop.
  unfoldable pub read_fragment : ℕ → ℕ → Bool → Progress → Exec Reading Progress
  unfolding receive_extra
  read_fragment op_id len skip p = do
    body ← in_disk (on_sock (recv_io_reply op_id))
    k ← lift (parse_chunk len p.seen body)
    q ← receive_extra lz len skip p k
    pure (advance k q)

  -- `while filled < length`. A round fills a byte at least, so `length` rounds are enough.
  unfoldable pub read_loop : ℕ → ℕ → ℕ → Bool → Progress → Exec Reading Progress
  unfolding read_fragment
  read_loop zero op_id len skip p s = if ltb p.filled len then (err out_of_fuel, s) else (ok p, s)
  read_loop (suc fuel) op_id len skip p s =
      let more =
        proceed (read_fragment op_id len skip p s) (λ q. read_loop fuel op_id len skip q) in
      if ltb p.filled len then more else (ok p, s)

  -- From the request on; `len` is `num_sectors * sector_size`.
  unfoldable pub transfer : ℕ → ℕ → Bool → Exec Reading ReadResult
  unfolding read_request read_loop result
  transfer start_sector len skip = do
    disk ← gets (λ s. s.disk)
    payload ← lift (read_request disk start_sector len)
    op_id ← in_disk next_op_id
    hdr ← lift (pack_aio_hdr AioMsg.io (length payload) op_id)
    in_disk (on_sock (sendall (hdr ++ payload)))
    p ← read_loop len op_id len skip start
    pure (result len skip p)

  -- The result, the disk and the buffer afterwards.
  unfoldable pub readinto : ℕ → ℕ → Buffer → Bool → NfcDisk → Result ReadResult × NfcDisk × Buffer
  unfolding finish_read transfer
  readinto start_sector num_sectors b skip d =
      let len = num_sectors * d.sector_size in
      let run = transfer start_sector len skip (record { disk = d; buf = b.bytes }) in
      if ltb num_sectors 1
      then (err (value_error no_sectors), d, b)
      else elim (writable_bytes b len) [ err e ↦ (err e, d, b) | ok _ ↦ finish_read b run ]

  unfoldable pub read : ℕ → ℕ → Exec NfcDisk Bytes
  unfolding readinto finish_bytes
  read start_sector num_sectors d =
      let b : Buffer = record {
        readonly = false;
        bytes = replicate (num_sectors * d.sector_size) 0;
      } in
      if ltb num_sectors 1
      then (err (value_error no_sectors), d)
      else finish_bytes (readinto start_sector num_sectors b false d)
