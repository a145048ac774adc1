-- ===== src/Read/Fragment.antt =====
-- One fragment of the reply to a read (openvixdisklib/nfc_open.py): `ReadFragment`, the header and body
-- of a reply, and what the loop of `readinto` does with the extra, with and without decompression.
--
-- The caller's buffer is part of the state: what was received into it before a raise stays there.
use open_vix_disk_lib.Prelude.{
  ℕ, ◌+◌, ◌/◌, ◌^◌, Bool, false, ◌||◌, not, List, [], ◌∷◌, ◌++◌, ltb, ◌==◌, length, blit,
  if◌then◌else◌,
}
use open_vix_disk_lib.Error.{
  Result, ok, err, and_then, protocol_error, value_error, buffer_read_only, buffer_too_small,
  unexpected_reply, reply_too_short, invalid_chunk, packed_too_long, fragment_not_decompressed,
  fragment_length, unsupported_compression,
}
use open_vix_disk_lib.Exec.{Exec, ◌>>=◌, ◌>>◌, pure, raise, lift, modify, raise_if, zoom}
use open_vix_disk_lib.Struct.{Bytes, unpack_from}
use open_vix_disk_lib.Conn.{Conn, recvn, recvn_into}
use open_vix_disk_lib.Fastlz.{Codec, decompress}
use open_vix_disk_lib.AioMsg
use open_vix_disk_lib.Aio.{
  NfcDisk, on_sock, unpack_aio_hdr, aio_extra_len, nfc_aio_hdr_size, nfc_compression_none,
  nfc_compression_fastlz,
}

pub record ReadFragment : Type 0 where
  pub dest : ℕ
  pub uncompressed_length : ℕ
  pub compression_type : ℕ
  pub offset : ℕ
  pub length : ℕ

pub record ReadResult : Type 0 where
  pub uncompressed_length : ℕ
  pub compressed_length : ℕ
  pub fragments : List ReadFragment

-- The buffer that the caller hands in.
pub record Buffer : Type 0 where
  pub readonly : Bool
  pub bytes : Bytes

pub record Reading : Type 0 where
  pub disk : NfcDisk
  pub buf : Bytes

-- `_writable_bytes`: the check; the view is the first `len` bytes of the buffer.
unfoldable pub writable_bytes : Buffer → ℕ → Result (Unit {0})
writable_bytes b len =
    if b.readonly
    then err buffer_read_only
    else if ltb (length b.bytes) len
    then err (buffer_too_small (length b.bytes) len)
    else ok tt

-- The variables of the loop of `readinto`.
pub record Progress : Type 0 where
  pub filled : ℕ
  pub wire_bytes : ℕ
  pub packed_offset : ℕ
  pub fragments : List ReadFragment
  pub seen : List ℕ

abbrev pub start : Progress
start = record { filled = 0; wire_bytes = 0; packed_offset = 0; fragments = []; seen = [] }

-- `dest in seen`
unfoldable pub is_seen : ℕ → List ℕ → Bool
is_seen x [] = false
is_seen x (y ∷ ys) = x == y || is_seen x ys

-- What the body of a reply says of its fragment.
pub record Chunk : Type 0 where
  pub dest : ℕ
  pub chunk_len : ℕ
  pub ctype : ℕ
  pub extra_len : ℕ

abbrev pub in_disk : {A : Type 0} → Exec NfcDisk A → Exec Reading A
in_disk m s = zoom (λ s. s.disk) (λ d s. record s { disk = d }) m s

-- `_recvn_into(self._sock, data[at : at + n])`
unfoldable pub receive_at : ℕ → ℕ → Exec Reading (Unit {0})
receive_at at n s =
    let (r, t) = recvn_into at n (record { conn = s.disk.sock; buf = s.buf }) in
    (r, record { disk = record s.disk { sock = t.conn }; buf = t.buf })

-- The body of a reply, from `unpack_from` to `_aio_extra_len`.
unfoldable pub parse_chunk : ℕ → List ℕ → Bytes → Result Chunk
unfolding is_seen
parse_chunk len seen body = and_then (unpack_from 8 body 8) λ opcode.
    and_then (unpack_from 4 body 28) λ dest. and_then (unpack_from 4 body 32) λ chunk_len.
      if is_seen dest seen || (chunk_len == 0) || ltb len (dest + chunk_len)
      then err (protocol_error (invalid_chunk dest chunk_len len))
      else and_then (aio_extra_len (opcode / 2 ^ 32) body chunk_len) (λ extra_len. ok (record {
        dest = dest;
        chunk_len = chunk_len;
        ctype = opcode / 2 ^ 32;
        extra_len = extra_len;
      }))

-- The header and body of the next reply.
unfoldable pub recv_io_reply : ℕ → Exec Conn Bytes
recv_io_reply op_id = do
  rhdr ← recvn nfc_aio_hdr_size
  h ← lift (unpack_aio_hdr rhdr)
  raise_if (not (h.msg_type == AioMsg.io) || not (h.op_id == op_id))
      (protocol_error (unexpected_reply h.msg_type h.op_id AioMsg.io op_id))
  body ← recvn h.size
  raise_if (ltb h.size 36) (protocol_error (reply_too_short h.size))
  pure body

-- `wire_bytes += extra_len; filled += chunk_len`, and `dest` is in `seen` from now on.
abbrev pub advance : Chunk → Progress → Progress
advance k p = record p {
  filled = p.filled + k.chunk_len;
  wire_bytes = p.wire_bytes + k.extra_len;
  seen = k.dest ∷ p.seen;
}

-- The branch of `skip_decompression`.
unfoldable pub receive_packed : ℕ → Progress → Chunk → Exec Reading Progress
unfolding receive_at
receive_packed len p k = do
  raise_if (ltb len (p.packed_offset + k.extra_len))
      (protocol_error (packed_too_long (p.packed_offset + k.extra_len) len))
  receive_at p.packed_offset k.extra_len
  pure (record p {
    fragments =
        p.fragments
        ++ (record {
          dest = k.dest;
          uncompressed_length = k.chunk_len;
          compression_type = k.ctype;
          offset = p.packed_offset;
          length = k.extra_len;
        }
            ∷ []);
    packed_offset = p.packed_offset + k.extra_len;
  })

-- `except ValueError as exc: raise NfcProtocolError`; other exceptions pass.
abbrev pub as_protocol_error : {A : Type 0} → Result A → Result A
as_protocol_error (err (value_error _)) = err (protocol_error fragment_not_decompressed)
as_protocol_error r = r

module _ (lz : Codec) where
  -- The branch of a FastLZ fragment.
  unfoldable pub receive_fastlz : Chunk → Exec Reading (Unit {0})
  receive_fastlz k = do
    extra ← in_disk (on_sock (recvn k.extra_len))
    chunk ← lift (as_protocol_error (decompress lz extra k.chunk_len))
    raise_if (not (length chunk == k.chunk_len))
        (protocol_error (fragment_length (length chunk) k.chunk_len))
    modify (λ s. record s { buf = blit k.dest chunk s.buf })

  unfoldable pub receive_extra : ℕ → Bool → Progress → Chunk → Exec Reading Progress
  unfolding receive_packed receive_fastlz receive_at
  receive_extra len skip p k =
      if skip
      then receive_packed len p k
      else if k.ctype == nfc_compression_fastlz
      then receive_fastlz k >> pure p
      else if k.ctype == nfc_compression_none
      then receive_at k.dest k.chunk_len >> pure p
      else raise (protocol_error (unsupported_compression k.ctype))
