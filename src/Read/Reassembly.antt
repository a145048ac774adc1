-- ===== src/Read/Reassembly.antt =====
-- `readinto` (openvixdisklib/nfc_open.py) against a server that answers with fragments, in any
-- order and however the network cuts them.
use open_vix_disk_lib.Prelude.{
  ℕ, zero, suc, ◌+◌, ◌*◌, ◌^◌, ◌≤◌, ◌<◌, ◌≡◌, refl, ◌∙◌, Bool, true, false, List, [], ◌∷◌, ◌++◌,
  append_assoc, arith, length, blit, length-blit, le→ltb_false, All,
}
use open_vix_disk_lib.Error.{ok}
use open_vix_disk_lib.Exec.{proceed}
use open_vix_disk_lib.Struct.{Bytes, Field, u32, u64}
use open_vix_disk_lib.Struct.Laws.{Fits, layout, pack-Fits, length-layout}
use open_vix_disk_lib.Conn.{Arrival}
use open_vix_disk_lib.Conn.Receive.{Delivers}
use open_vix_disk_lib.Conn.Send.{CanSend, sendall_lem}
use open_vix_disk_lib.Fastlz.{Codec}
use open_vix_disk_lib.AioMsg
use open_vix_disk_lib.Aio.{NfcDisk, next_op_id, nfc_aio_io_read}
use open_vix_disk_lib.Aio.Frames.{IsU32, hdr_bytes, pack_aio_hdr_lem}
use open_vix_disk_lib.Read.Rounds.{read_loop_full, read_loop_round}
use open_vix_disk_lib.Read.Fragment.{
  Buffer, Reading, Progress, start, advance, is_seen, writable_bytes,
}
use open_vix_disk_lib.Read.{read_loop, result, transfer, finish_read, readinto}
use open_vix_disk_lib.Read.Replies.{Reply, wire, Describes, chunk_of, received, read_fragment_lem}

-- What the replies are on the wire, what they bring to the buffer, and their lengths.
abbrev pub replies : ℕ → List Reply → Bytes
replies op_id [] = []
replies op_id (f ∷ fs) = wire op_id f ++ replies op_id fs

abbrev pub placed : List Reply → Bytes → Bytes
placed [] buf = buf
placed (f ∷ fs) buf = placed fs (blit f.dest f.bytes buf)

abbrev pub total : List Reply → ℕ
total [] = 0
total (f ∷ fs) = length f.bytes + total fs

abbrev pub wire_total : List Reply → ℕ
wire_total [] = 0
wire_total (f ∷ fs) = length f.extra + wire_total fs

-- Each fragment lies in the request, is not empty, and has an offset of its own.
abbrev pub Accepted : Codec → ℕ → List ℕ → List Reply → Type 0
Accepted lz len seen [] = Unit {0}
Accepted lz len seen (f ∷ fs) =
    Describes lz f
    × (is_seen f.dest seen ≡ false)
    × (0 < length f.bytes)
    × (f.dest + length f.bytes ≤ len)
    × Accepted lz len (f.dest ∷ seen) fs

abbrev ReadAll : Codec → ℕ → ℕ → ℕ → Progress → Reading → List Reply → Bytes → Type 0
ReadAll lz fuel op_id len p s fs ys =
    (q : Progress) × (rest : List Arrival) × (read_loop lz fuel op_id len false p s ≡ (
      ok q,
      record {
        disk = record s.disk { sock = record s.disk.sock { incoming = rest } };
        buf = placed fs s.buf;
      },
    ))
    × (q.wire_bytes ≡ p.wire_bytes + wire_total fs)
    × Delivers rest ys

read_loop_lem :
    (lz : Codec) (op_id len fuel : ℕ) (p : Progress) (s : Reading) (fs : List Reply) (ys : Bytes)
    → IsU32 op_id
    → s.disk.sock.is_open ≡ true
    → len ≤ length s.buf
    → Accepted lz len p.seen fs
    → p.filled + total fs ≡ len
    → total fs ≤ fuel
    → Delivers s.disk.sock.incoming (replies op_id fs ++ ys)
    → ReadAll lz fuel op_id len p s fs ys
read_loop_lem lz op_id len fuel p s [] ys ho o room acc sum enough d = (
  p,
  s.disk.sock.incoming,
  read_loop_full lz op_id len false fuel p s (omega arith),
  omega arith,
  d,
)
read_loop_lem lz op_id len zero p s (f ∷ fs) ys ho o room acc sum enough d =
    absurd (omega (arith, acc.2))
read_loop_lem lz op_id len (suc fuel) p s (f ∷ fs) ys ho o room acc sum enough d =
    let (v, new, some, inside, more) = acc in
    let regroup = append_assoc (wire op_id f) (replies op_id fs) ys in
    let (rest, e, d') =
      read_fragment_lem lz f v s (replies op_id fs ++ ys) op_id len p ho o new some inside room
        (record { pieces = d.pieces; bytes = d.bytes ∙ regroup }) in
    let p' : Progress = advance (chunk_of lz f v) p in
    let s' : Reading = received f rest s in
    let lb : length s'.buf ≡ length s.buf = length-blit f.dest f.bytes s.buf in
    let (q, rest', e', w, d'') =
      read_loop_lem lz op_id len fuel p' s' fs ys ho o (omega arith) more (omega arith)
        (omega arith) d' in
    (
      q,
      rest',
      read_loop_round lz op_id len false fuel p p' s s' (omega arith) e ∙ e',
      omega arith,
      d'',
    )

-- The request of a read, as fields, and as the bytes that go out.
abbrev pub request_fields : NfcDisk → ℕ → ℕ → List Field
request_fields d start_sector len =
    u64 d.handle
    ∷ u64 (nfc_aio_io_read + d.compression * 2 ^ 32)
    ∷ u64 (start_sector * d.sector_size)
    ∷ u64 len
    ∷ u32 len
    ∷ u32 len
    ∷ u32 0
    ∷ []

abbrev pub request : NfcDisk → ℕ → ℕ → Bytes
request d start_sector len =
    hdr_bytes AioMsg.io 44 d.op_id ++ layout (request_fields d start_sector len)

-- The call is one that can be sent: the numbers fit their formats, and the buffer holds the result.
pub record CanRead (d : NfcDisk) (b : Buffer) (start_sector num_sectors : ℕ) : Type 0 where
  pub some : 0 < num_sectors
  pub writable : b.readonly ≡ false
  pub room : num_sectors * d.sector_size ≤ length b.bytes
  pub can_send : CanSend d.sock
  pub op_id_fits : IsU32 d.op_id
  pub fields_fit : All Fits (request_fields d start_sector (num_sectors * d.sector_size))

-- The disk after the request went out.
abbrev pub asked : NfcDisk → ℕ → ℕ → NfcDisk
asked d start_sector len = record d {
  op_id = d.op_id + 1;
  sock = record d.sock { sent = d.sock.sent ++ (request d start_sector len ∷ []) };
}

-- The request goes out, and the loop runs.
pub transfer_lem :
    (lz : Codec) (d : NfcDisk) (buf : Bytes) (start_sector len : ℕ) (skip : Bool)
    → CanSend d.sock
    → IsU32 d.op_id
    → All Fits (request_fields d start_sector len)
    → transfer lz start_sector len skip (record { disk = d; buf = buf })
      ≡ proceed
          (read_loop lz len d.op_id len skip start
            (record { disk = asked d start_sector len; buf = buf }))
          (λ p s. (ok (result len skip p), s))
unfolding transfer next_op_id
transfer_lem lz d buf start_sector len skip can ho fits =
    let body : Bytes = layout (request_fields d start_sector len) in
    let l : length body ≡ 44 = length-layout (request_fields d start_sector len) in
    let d1 : NfcDisk = record d { op_id = d.op_id + 1 } in
    let hdr = pack_aio_hdr_lem AioMsg.io 44 d.op_id (omega arith) (omega arith) ho in
    rw
      (
        pack-Fits (request_fields d start_sector len) fits,
        l,
        hdr,
        sendall_lem d1.sock (request d start_sector len) can,
      )
      refl

writable_bytes_lem :
    (b : Buffer) (len : ℕ)
    → b.readonly ≡ false
    → len ≤ length b.bytes
    → writable_bytes b len ≡ ok tt
unfolding writable_bytes
writable_bytes_lem b len w room = rw (w, le→ltb_false (length b.bytes) len room) refl

-- The guards of `readinto` let a call through that can be sent.
pub readinto_guarded :
    (lz : Codec) (d : NfcDisk) (b : Buffer) (start_sector num_sectors : ℕ) (skip : Bool)
    → CanRead d b start_sector num_sectors
    → readinto lz start_sector num_sectors b skip d
      ≡ finish_read b (
          transfer lz start_sector
            (num_sectors * d.sector_size)
            skip
            (record { disk = d; buf = b.bytes }))
unfolding readinto
readinto_guarded lz d b start_sector num_sectors skip can =
    rw
      (
        le→ltb_false num_sectors 1 can.some,
        writable_bytes_lem b (num_sectors * d.sector_size) can.writable can.room,
      )
      refl

module _ (lz : Codec) (d : NfcDisk) (b : Buffer) (start_sector num_sectors : ℕ)
    (can : CanRead d b start_sector num_sectors) (fs : List Reply) (ys : Bytes) where
  abbrev len : ℕ
  len = num_sectors * d.sector_size

  -- A call of `readinto` that can be sent, without skipping decompression: if the server sends
  -- fragments that lie in the request, are not empty, have distinct offsets and together as many
  -- bytes as were asked for, then the call has sent one request under the next operation id, has
  -- put each fragment at its offset into the buffer, has read no byte behind the replies, and
  -- returns both lengths and no fragments.
  pub readinto-replies :
      Accepted lz len [] fs
      → total fs ≡ len
      → Delivers d.sock.incoming (replies d.op_id fs ++ ys)
      → (rest : List Arrival) × (readinto lz start_sector num_sectors b false d ≡ (
        ok (record {
          uncompressed_length = len;
          compressed_length = wire_total fs;
          fragments = [];
        }),
        record d {
          op_id = d.op_id + 1;
          sock = record d.sock {
            incoming = rest;
            sent = d.sock.sent ++ (request d start_sector len ∷ []);
          };
        },
        record b { bytes = placed fs b.bytes },
      ))
        × Delivers rest ys
  unfolding finish_read result
  readinto-replies acc sum del =
      let s : Reading = record { disk = asked d start_sector len; buf = b.bytes } in
      let (q, rest, e, w, del') =
        read_loop_lem lz d.op_id len len start s fs ys can.op_id_fits can.can_send.is_open can.room
          acc (omega arith) (omega arith) del in
      let w' : q.wire_bytes ≡ wire_total fs = omega arith in
      (
        rest,
        rw
            (
              readinto_guarded lz d b start_sector num_sectors false can,
              transfer_lem lz d b.bytes start_sector len false can.can_send can.op_id_fits
                  can.fields_fit,
              e,
              w',
            )
            refl,
        del',
      )
