-- ===== src/Read/Replies.antt =====
-- Fragments as a server sends them, and one round of the loop of `readinto`
-- (openvixdisklib/nfc_open.py) on each.
use open_vix_disk_lib.Prelude.{
  ℕ, ◌+◌, ◌/◌, ◌^◌, ◌≤◌, ◌<◌, ◌≡◌, refl, ap, ◌∙◌, true, false, ◌⊎◌, inl, inr, List, ◌++◌,
  append_assoc, arith, ◌==◌, ==_refl, length, blit, le→ltb_false,
}
use open_vix_disk_lib.Error.{ok}
use open_vix_disk_lib.Struct.{Bytes, unpack_from}
use open_vix_disk_lib.Conn.{Arrival, Conn}
use open_vix_disk_lib.Conn.Receive.{Delivers, recvn-Delivers, recvn_into_fills}
use open_vix_disk_lib.Fastlz.{Codec, decompress}
use open_vix_disk_lib.AioMsg
use open_vix_disk_lib.Aio.{
  nfc_aio_hdr_size, pack_aio_hdr, aio_extra_len, nfc_compression_none, nfc_compression_fastlz,
}
use open_vix_disk_lib.Aio.Frames.{
  IsU32, hdr_bytes, frame, length-hdr_bytes, pack_aio_hdr_lem, unpack-pack_aio_hdr,
}
use open_vix_disk_lib.Read.Fragment.{
  Reading, Progress, Chunk, receive_at, parse_chunk, is_seen, recv_io_reply, advance,
  receive_fastlz, receive_extra,
}
use open_vix_disk_lib.Read.{read_fragment}

-- A fragment: the body of its reply, the extra behind it, and the bytes of the disk that it brings to
-- the offset `dest` of the request.
pub record Reply : Type 0 where
  pub body : Bytes
  pub extra : Bytes
  pub dest : ℕ
  pub bytes : Bytes

-- The bytes on the wire.
abbrev pub wire : ℕ → Reply → Bytes
wire op_id f = frame AioMsg.io op_id f.body f.extra

pub regroup :
    (op_id : ℕ) (f : Reply) (ys : Bytes)
    → wire op_id f ++ ys ≡ frame AioMsg.io op_id f.body (f.extra ++ ys)
regroup op_id f ys =
    append_assoc (hdr_bytes AioMsg.io (length f.body) op_id) (f.body ++ f.extra) ys
    ∙ ap (λ (t : Bytes). hdr_bytes AioMsg.io (length f.body) op_id ++ t)
        (append_assoc f.body f.extra ys)

-- The fragment is raw: its extra is the bytes themselves. Or it is compressed.
abbrev pub IsRaw : ℕ → Reply → Type 0
IsRaw opcode f = (opcode / 2 ^ 32 ≡ nfc_compression_none) × (f.extra ≡ f.bytes)

abbrev pub IsPacked : Codec → ℕ → Reply → Type 0
IsPacked lz opcode f =
    (opcode / 2 ^ 32 ≡ nfc_compression_fastlz)
    × (unpack_from 4 f.body 36 ≡ ok (length f.extra))
    × (0 < length f.extra)
    × (decompress lz f.extra (length f.bytes) ≡ ok f.bytes)

-- The body announces the opcode, the offset and the length that the fragment has.
pub record Describes (lz : Codec) (f : Reply) : Type 0 where
  pub opcode : ℕ
  pub opcode_read : unpack_from 8 f.body 8 ≡ ok opcode
  pub dest_read : unpack_from 4 f.body 28 ≡ ok f.dest
  pub length_read : unpack_from 4 f.body 32 ≡ ok (length f.bytes)
  pub long : 36 ≤ length f.body
  pub fits : IsU32 (length f.body)
  pub form : IsRaw opcode f ⊎ IsPacked lz opcode f

module _ (c : Conn) (op_id : ℕ) (body ys : Bytes) where
  pub recv_io_reply_lem :
      c.is_open ≡ true
      → IsU32 op_id
      → IsU32 (length body)
      → 36 ≤ length body
      → Delivers c.incoming (frame AioMsg.io op_id body ys)
      → (rest : List Arrival) × (recv_io_reply op_id c ≡ (ok body, record c { incoming = rest }))
        × Delivers rest ys
  unfolding recv_io_reply
  recv_io_reply_lem o ho hb long d =
      let hdr : Bytes = hdr_bytes AioMsg.io (length body) op_id in
      let (rest, e, d') = recvn-Delivers c hdr (body ++ ys) o d in
      let (rest', e', d'') = recvn-Delivers (record c { incoming = rest }) body ys o d' in
      let l : length hdr ≡ nfc_aio_hdr_size = length-hdr_bytes AioMsg.io (length body) op_id in
      let packed : pack_aio_hdr AioMsg.io (length body) op_id ≡ ok hdr =
        pack_aio_hdr_lem AioMsg.io (length body) op_id (omega arith) hb ho in
      let h = unpack-pack_aio_hdr AioMsg.io (length body) op_id hdr packed in
      (rest', rw (rw l at e, h, ==_refl op_id, e', le→ltb_false (length body) 36 long) refl, d'')

abbrev pub chunk_of : (lz : Codec) (f : Reply) → Describes lz f → Chunk
chunk_of lz f v = record {
  dest = f.dest;
  chunk_len = length f.bytes;
  ctype = v.opcode / 2 ^ 32;
  extra_len = length f.extra;
}

module _ (lz : Codec) (f : Reply) (v : Describes lz f) where
  extra_len_lem : aio_extra_len (v.opcode / 2 ^ 32) f.body (length f.bytes) ≡ ok (length f.extra)
  unfolding aio_extra_len
  extra_len_lem = elim v.form [
    | inl (raw, same) ↦ rw (raw, same) refl
    | inr (packed, len, some, _) ↦ rw (packed, len, le→ltb_false (length f.extra) 1 some) refl
  ]

  pub parse_chunk_lem :
      (len : ℕ) (seen : List ℕ)
      → is_seen f.dest seen ≡ false
      → 0 < length f.bytes
      → f.dest + length f.bytes ≤ len
      → parse_chunk len seen f.body ≡ ok (chunk_of lz f v)
  unfolding parse_chunk
  parse_chunk_lem len seen new some inside =
      let z : (length f.bytes == 0) ≡ false = ground arith in
      rw
        (
          v.opcode_read,
          v.dest_read,
          v.length_read,
          new,
          z,
          le→ltb_false len (f.dest + length f.bytes) inside,
          extra_len_lem,
        )
        refl

-- The state after the fragment: its bytes stand in the buffer, and `rest` is still to come.
abbrev pub received : Reply → List Arrival → Reading → Reading
received f rest s = record {
  disk = record s.disk { sock = record s.disk.sock { incoming = rest } };
  buf = blit f.dest f.bytes s.buf;
}

module _ (lz : Codec) (f : Reply) (v : Describes lz f) (s : Reading) (ys : Bytes) where
  receive_at_lem :
      s.disk.sock.is_open ≡ true
      → f.dest + length f.bytes ≤ length s.buf
      → Delivers s.disk.sock.incoming (f.bytes ++ ys)
      → (rest : List Arrival) × (receive_at f.dest (length f.bytes) s ≡ (ok tt, received f rest s))
        × Delivers rest ys
  unfolding receive_at
  receive_at_lem o inside d =
      let (rest, e, d') =
        recvn_into_fills f.dest (record { conn = s.disk.sock; buf = s.buf }) f.bytes ys o inside
          d in
      (rest, rw e refl, d')

  receive_fastlz_lem :
      s.disk.sock.is_open ≡ true
      → decompress lz f.extra (length f.bytes) ≡ ok f.bytes
      → Delivers s.disk.sock.incoming (f.extra ++ ys)
      → (rest : List Arrival) × (receive_fastlz lz (chunk_of lz f v) s ≡ (ok tt, received f rest s))
        × Delivers rest ys
  unfolding receive_fastlz
  receive_fastlz_lem o dec d =
      let (rest, e, d') = recvn-Delivers s.disk.sock f.extra ys o d in
      (rest, rw (e, dec, ==_refl (length f.bytes)) refl, d')

  receive_extra_lem :
      (len : ℕ) (p : Progress)
      → s.disk.sock.is_open ≡ true
      → f.dest + length f.bytes ≤ length s.buf
      → Delivers s.disk.sock.incoming (f.extra ++ ys)
      → (rest : List Arrival) × (receive_extra lz len false p (chunk_of lz f v) s
          ≡ (ok p, received f rest s))
        × Delivers rest ys
  unfolding receive_extra
  receive_extra_lem len p o inside d = elim v.form [
    | inl (raw, same) ↦
        let (rest, e, d') = receive_at_lem o inside (rw same at d) in (rest, rw (raw, e) refl, d')
    | inr (packed, _, _, dec) ↦
        let (rest, e, d') = receive_fastlz_lem o dec d in (rest, rw (packed, e) refl, d')
  ]

module _ (lz : Codec) (f : Reply) (v : Describes lz f) (s : Reading) (ys : Bytes) where
  -- One round of the loop on a fragment that fits, is not empty and is new.
  pub read_fragment_lem :
      (op_id len : ℕ) (p : Progress)
      → IsU32 op_id
      → s.disk.sock.is_open ≡ true
      → is_seen f.dest p.seen ≡ false
      → 0 < length f.bytes
      → f.dest + length f.bytes ≤ len
      → len ≤ length s.buf
      → Delivers s.disk.sock.incoming (wire op_id f ++ ys)
      → (rest : List Arrival) × (read_fragment lz op_id len false p s
          ≡ (ok (advance (chunk_of lz f v) p), received f rest s))
        × Delivers rest ys
  unfolding read_fragment
  read_fragment_lem op_id len p ho o new some inside room d =
      let (rest, e, d') =
        recv_io_reply_lem s.disk.sock op_id f.body (f.extra ++ ys) o ho v.fits v.long
          (record { pieces = d.pieces; bytes = d.bytes ∙ regroup op_id f ys }) in
      let s' : Reading = record s {
        disk = record s.disk { sock = record s.disk.sock { incoming = rest } };
      } in
      let (rest', e', d'') = receive_extra_lem lz f v s' ys len p o (omega arith) d' in
      (rest', rw (e, parse_chunk_lem lz f v len p.seen new some inside, e') refl, d'')
