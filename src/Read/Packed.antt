-- ===== src/Read/Packed.antt =====
-- `readinto` (openvixdisklib/nfc_open.py) with `skip_decompression`: the extras, packed densely in the
-- caller's buffer, and the table that describes them.
use open_vix_disk_lib.Prelude.{
  ℕ, zero, suc, ◌+◌, ◌*◌, ◌/◌, ◌^◌, ◌≤◌, ◌<◌, ◌≡◌, refl, sym, ap, ◌∙◌, true, false, List, [], ◌∷◌,
  ◌++◌, append_assoc, append-nil, arith, length, length-append, blit, blit_nil, blit-blit,
  length-blit, le→ltb_false,
}
use open_vix_disk_lib.Error.{ok}
use open_vix_disk_lib.Struct.{Bytes}
use open_vix_disk_lib.Conn.{Arrival}
use open_vix_disk_lib.Conn.Receive.{Delivers, recvn_into_fills}
use open_vix_disk_lib.Fastlz.{Codec}
use open_vix_disk_lib.Aio.{NfcDisk}
use open_vix_disk_lib.Aio.Frames.{IsU32}
use open_vix_disk_lib.Read.Fragment.{
  ReadFragment, Buffer, Reading, Progress, start, advance, is_seen, receive_at, receive_packed,
  receive_extra,
}
use open_vix_disk_lib.Read.{read_fragment, read_loop, result, finish_read, readinto}
use open_vix_disk_lib.Read.Rounds.{read_loop_full, read_loop_round}
use open_vix_disk_lib.Read.Replies.{
  Reply, wire, Describes, chunk_of, regroup, recv_io_reply_lem, parse_chunk_lem,
}
use open_vix_disk_lib.Read.Reassembly.{
  replies, total, wire_total, Accepted, CanRead, asked, transfer_lem, readinto_guarded,
}

-- The extras one behind the other, and the table with the offset of each.
abbrev pub packed : List Reply → Bytes
packed [] = []
packed (f ∷ fs) = f.extra ++ packed fs

abbrev pub entry : (lz : Codec) (f : Reply) → Describes lz f → ℕ → ReadFragment
entry lz f v offset = record {
  dest = f.dest;
  uncompressed_length = length f.bytes;
  compression_type = v.opcode / 2 ^ 32;
  offset = offset;
  length = length f.extra;
}

abbrev pub table :
    (lz : Codec) (len : ℕ) (seen : List ℕ) (offset : ℕ) (fs : List Reply)
    → Accepted lz len seen fs
    → List ReadFragment
table lz len seen offset [] acc = []
table lz len seen offset (f ∷ fs) (v, _, _, _, more) =
    entry lz f v offset ∷ table lz len (f.dest ∷ seen) (offset + length f.extra) fs more

pub length-packed : (fs : List Reply) → length (packed fs) ≡ wire_total fs
length-packed [] = refl
length-packed (f ∷ fs) = omega (arith, length-append f.extra (packed fs), length-packed fs)

-- The state after an extra was received to `offset`.
abbrev stored : ℕ → Bytes → List Arrival → Reading → Reading
stored offset extra rest s = record {
  disk = record s.disk { sock = record s.disk.sock { incoming = rest } };
  buf = blit offset extra s.buf;
}

-- The loop's variables after an extra.
abbrev noted : (lz : Codec) (f : Reply) → Describes lz f → Progress → Progress
noted lz f v p = advance (chunk_of lz f v) (record p {
  fragments = p.fragments ++ (entry lz f v p.packed_offset ∷ []);
  packed_offset = p.packed_offset + length f.extra;
})

module _ (lz : Codec) (f : Reply) (v : Describes lz f) (s : Reading) (ys : Bytes) (len : ℕ)
    (p : Progress) (o : s.disk.sock.is_open ≡ true) (fits : p.packed_offset + length f.extra ≤ len)
    (room : len ≤ length s.buf) where
  receive_packed_lem :
      Delivers s.disk.sock.incoming (f.extra ++ ys)
      → (rest : List Arrival) × (advanced : Progress) × (receive_extra lz len true p
            (chunk_of lz f v)
            s
          ≡ (ok advanced, stored p.packed_offset f.extra rest s))
        × (advance (chunk_of lz f v) advanced ≡ noted lz f v p)
        × Delivers rest ys
  unfolding receive_extra receive_packed receive_at
  receive_packed_lem d =
      let (rest, e, d') =
        recvn_into_fills p.packed_offset (record { conn = s.disk.sock; buf = s.buf }) f.extra ys o
          (omega arith) d in
      (rest, _, rw (le→ltb_false len (p.packed_offset + length f.extra) fits, e) refl, refl, d')

module _ (lz : Codec) (f : Reply) (v : Describes lz f) (s : Reading) (ys : Bytes) (op_id len : ℕ)
    (p : Progress) where
  -- One round of the loop on a fragment that fits, is not empty and is new.
  packed_round :
      IsU32 op_id
      → s.disk.sock.is_open ≡ true
      → is_seen f.dest p.seen ≡ false
      → 0 < length f.bytes
      → f.dest + length f.bytes ≤ len
      → p.packed_offset + length f.extra ≤ len
      → len ≤ length s.buf
      → Delivers s.disk.sock.incoming (wire op_id f ++ ys)
      → (rest : List Arrival) × (read_fragment lz op_id len true p s
          ≡ (ok (noted lz f v p), stored p.packed_offset f.extra rest s))
        × Delivers rest ys
  unfolding read_fragment
  packed_round ho o new more inside fits room d =
      let (rest, e, d') =
        recv_io_reply_lem s.disk.sock op_id f.body (f.extra ++ ys) o ho v.fits v.long
          (record { pieces = d.pieces; bytes = d.bytes ∙ regroup op_id f ys }) in
      let s' : Reading = record s {
        disk = record s.disk { sock = record s.disk.sock { incoming = rest } };
      } in
      let (rest', q, e', same, d'') = receive_packed_lem lz f v s' ys len p o fits room d' in
      (rest', rw (e, parse_chunk_lem lz f v len p.seen new more inside, e', same) refl, d'')

abbrev PacksAll :
    (lz : Codec) (fuel op_id len : ℕ) (p : Progress) (s : Reading) (fs : List Reply)
    → Accepted lz len p.seen fs
    → Bytes
    → Type 0
PacksAll lz fuel op_id len p s fs acc ys =
    (q : Progress) × (rest : List Arrival) × (read_loop lz fuel op_id len true p s
      ≡ (ok q, stored p.packed_offset (packed fs) rest s))
    × (q.wire_bytes ≡ p.wire_bytes + wire_total fs)
    × (q.fragments ≡ p.fragments ++ table lz len p.seen p.packed_offset fs acc)
    × Delivers rest ys

packed_loop :
    (lz : Codec) (op_id len fuel : ℕ) (p : Progress) (s : Reading) (fs : List Reply) (ys : Bytes)
    (acc : Accepted lz len p.seen fs)
    → IsU32 op_id
    → s.disk.sock.is_open ≡ true
    → len ≤ length s.buf
    → p.filled + total fs ≡ len
    → p.packed_offset + wire_total fs ≤ len
    → total fs ≤ fuel
    → Delivers s.disk.sock.incoming (replies op_id fs ++ ys)
    → PacksAll lz fuel op_id len p s fs acc ys
packed_loop lz op_id len fuel p s [] ys acc ho o room sum fits enough d = (
  p,
  s.disk.sock.incoming,
  read_loop_full lz op_id len true fuel p s (omega arith)
      ∙ ap (λ (b : Bytes). (ok p, record s { buf = b })) (sym (blit_nil p.packed_offset s.buf)),
  omega arith,
  sym (append-nil p.fragments),
  d,
)
packed_loop lz op_id len zero p s (f ∷ fs) ys acc ho o room sum fits enough d =
    absurd (omega (arith, acc.2))
packed_loop lz op_id len (suc fuel) p s (f ∷ fs) ys (v, new, some, inside, more) ho o room sum fits
      enough d =
    let group = append_assoc (wire op_id f) (replies op_id fs) ys in
    let (rest, e, d') =
      packed_round lz f v s (replies op_id fs ++ ys) op_id len p ho o new some inside (omega arith)
        room (record { pieces = d.pieces; bytes = d.bytes ∙ group }) in
    let p' : Progress = noted lz f v p in
    let s' : Reading = stored p.packed_offset f.extra rest s in
    let lb : length s'.buf ≡ length s.buf = length-blit p.packed_offset f.extra s.buf in
    let (q, rest', e', w, t, d'') =
      packed_loop lz op_id len fuel p' s' fs ys more ho o (omega arith) (omega arith) (omega arith)
        (omega arith) d' in
    let one =
      blit-blit p.packed_offset (p.packed_offset + length f.extra) f.extra (packed fs) s.buf refl
        (omega arith) in
    (
      q,
      rest',
      read_loop_round lz op_id len true fuel p p' s s' (omega arith) e
          ∙ e'
          ∙ ap
              (λ (b : Bytes). (
                ok q,
                record {
                  disk = record s.disk { sock = record s.disk.sock { incoming = rest' } };
                  buf = b;
                },
              ))
              one,
      omega arith,
      t
          ∙ append_assoc p.fragments (entry lz f v p.packed_offset ∷ [])
              (table lz len (f.dest ∷ p.seen) (p.packed_offset + length f.extra) fs more),
      d'',
    )

module _ (lz : Codec) (d : NfcDisk) (b : Buffer) (start_sector num_sectors : ℕ)
    (can : CanRead d b start_sector num_sectors) (fs : List Reply) (ys : Bytes) where
  abbrev len : ℕ
  len = num_sectors * d.sector_size

  -- A call of `readinto` with `skip_decompression` that can be sent: if the server sends fragments
  -- that lie in the request, are not empty, have distinct offsets and together as many bytes as
  -- were asked for, and whose extras together are no longer than the request, then the call has
  -- sent one request under the next operation id, the buffer begins with the extras one behind the
  -- other in the order in which they came, the table has for each fragment its offset in the
  -- request, its length, its compression type and the place of its extra, both lengths are
  -- returned, and no byte behind the replies is read.
  pub readinto_packs :
      (acc : Accepted lz len [] fs)
      → total fs ≡ len
      → wire_total fs ≤ len
      → Delivers d.sock.incoming (replies d.op_id fs ++ ys)
      → (rest : List Arrival) × (readinto lz start_sector num_sectors b true d ≡ (
        ok (record {
          uncompressed_length = len;
          compressed_length = wire_total fs;
          fragments = table lz len [] 0 fs acc;
        }),
        record (asked d start_sector len) {
          sock = record (asked d start_sector len).sock { incoming = rest };
        },
        record b { bytes = blit 0 (packed fs) b.bytes },
      ))
        × Delivers rest ys
  unfolding finish_read result
  readinto_packs acc sum fits del =
      let s : Reading = record { disk = asked d start_sector len; buf = b.bytes } in
      let (q, rest, e, w, t, del') =
        packed_loop lz d.op_id len len start s fs ys acc can.op_id_fits can.can_send.is_open
          can.room (omega arith) (omega arith) (omega arith) del in
      let w' : q.wire_bytes ≡ wire_total fs = omega arith in
      (
        rest,
        rw
            (
              readinto_guarded lz d b start_sector num_sectors true can,
              transfer_lem lz d b.bytes start_sector len true can.can_send can.op_id_fits
                  can.fields_fit,
              e,
              w',
              t,
            )
            refl,
        del',
      )
