-- ===== src/Write.antt =====
-- `NfcDisk.write` (openvixdisklib/nfc_open.py). The pip module `fastlz` is the section's parameter.
-- Sector numbers are natural numbers.
pub mod Fragments
pub mod Stored
pub mod Sent
pub mod Whole
pub mod Refused
pub mod Total
use open_vix_disk_lib.Prelude.{
  ℕ, zero, suc, ◌+◌, ◌*◌, ◌^◌, Bool, true, false, ◌||◌, ◌&&◌, not, List, [], ◌∷◌, ◌++◌, ltb, leb,
  ◌==◌, length, take, drop, if◌then◌else◌,
}
use open_vix_disk_lib.Error.{
  Result, ok, err, and_then, protocol_error, value_error, out_of_fuel, unexpected_reply, no_sectors,
  write_length,
}
use open_vix_disk_lib.Exec.{Exec, ◌>>=◌, ◌>>◌, pure, raise, lift, gets, proceed, raise_if, zoom}
use open_vix_disk_lib.Struct.{Bytes, Field, u32, u64, pack}
use open_vix_disk_lib.Conn.{Conn, sendall}
use open_vix_disk_lib.Fastlz.{Codec, compress}
use open_vix_disk_lib.AioMsg
use open_vix_disk_lib.Aio.{
  NfcDisk, on_sock, next_op_id, pack_aio_hdr, aio_recv_reply, nfc_aio_io_write,
  nfc_compression_none, nfc_compression_fastlz,
}

-- What goes out for a chunk: the extra and its compression type.
pub record Extra : Type 0 where
  pub extra : Bytes
  pub ctype : ℕ

abbrev pub raw : Bytes → Extra
raw chunk = record { extra = chunk; ctype = nfc_compression_none }

-- `if compressed and len(compressed) < extra_len`
pub shrink : Bytes → Bytes → Extra
shrink chunk compressed =
    if not (length compressed == 0) && ltb (length compressed) (length chunk)
    then record { extra = compressed; ctype = nfc_compression_fastlz }
    else raw chunk

-- The payload of a fragment.
abbrev pub fragment_fields : NfcDisk → ℕ → ℕ → ℕ → ℕ → Extra → List Field
fragment_fields d disk_offset len frag_offset chunk_len x =
    u64 d.handle
    ∷ u64 (nfc_aio_io_write + x.ctype * 2 ^ 32)
    ∷ u64 disk_offset
    ∷ u32 len
    ∷ u32 frag_offset
    ∷ u32 chunk_len
    ∷ u32 (length x.extra)
    ∷ u32 0
    ∷ []

module _ (lz : Codec) where
  unfoldable pub choose_extra : ℕ → Bytes → Result Extra
  unfolding shrink
  choose_extra compression chunk =
      if (compression == nfc_compression_fastlz) && leb 16 (length chunk)
      then and_then (compress lz chunk) (λ compressed. ok (shrink chunk compressed))
      else ok (raw chunk)

  -- One round of the loop: the chunk at `frag_offset` goes out in one `sendall`.
  unfoldable pub send_fragment : ℕ → ℕ → ℕ → ℕ → Bytes → Exec NfcDisk (Unit {0})
  send_fragment op_id disk_offset len frag_offset chunk = do
    d ← gets (λ d. d)
    x ← lift (choose_extra d.compression chunk)
    payload ← lift (pack (fragment_fields d disk_offset len frag_offset (length chunk) x))
    hdr ← lift (pack_aio_hdr AioMsg.io (length payload) op_id)
    on_sock (sendall (hdr ++ (payload ++ x.extra)))

  -- `while frag_offset < length`. With a buffer of a byte at least, `length` rounds are enough.
  unfoldable pub write_loop : ℕ → ℕ → ℕ → Bytes → ℕ → Exec NfcDisk (Unit {0})
  write_loop zero op_id disk_offset bytes frag_offset d =
      if ltb frag_offset (length bytes) then (err out_of_fuel, d) else (ok tt, d)
  write_loop (suc fuel) op_id disk_offset bytes frag_offset d =
      let chunk = take d.aio_buffer_size (drop frag_offset bytes) in
      let more =
        proceed (send_fragment op_id disk_offset (length bytes) frag_offset chunk d)
          (λ _. write_loop fuel op_id disk_offset bytes (frag_offset + length chunk)) in
      if ltb frag_offset (length bytes) then more else (ok tt, d)

  unfoldable pub write : ℕ → ℕ → Bytes → Exec NfcDisk (Unit {0})
  unfolding write_loop
  write start_sector num_sectors bytes = do
    raise_if (ltb num_sectors 1) (value_error no_sectors)
    d ← gets (λ d. d)
    raise_if (not (length bytes == num_sectors * d.sector_size))
        (value_error (write_length (length bytes) (num_sectors * d.sector_size)))
    op_id ← next_op_id
    write_loop (length bytes) op_id (start_sector * d.sector_size) bytes 0
    (rtype, rop, body) ← on_sock aio_recv_reply
    raise_if (not (rtype == AioMsg.io) || not (rop == op_id))
        (protocol_error (unexpected_reply rtype rop AioMsg.io op_id))
