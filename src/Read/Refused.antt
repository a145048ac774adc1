-- ===== src/Read/Refused.antt =====
-- A `readinto` (openvixdisklib/nfc_open.py) whose answer goes wrong between two fragments.
use open_vix_disk_lib.Prelude.{
  ℕ, zero, suc, ◌+◌, ◌*◌, ◌≤◌, ◌<◌, ◌≡◌, refl, ◌∙◌, false, true, inl, inr, some, not, ◌||◌, List,
  [], ◌∷◌, ◌++◌, append_assoc, arith, ◌==◌, length, length-blit, Bool-cases,
}
use open_vix_disk_lib.Error.{Error, ok, err}
use open_vix_disk_lib.Struct.{Bytes}
use open_vix_disk_lib.Conn.{Arrival, Conn}
use open_vix_disk_lib.Conn.Receive.{Delivers, recvn-Delivers}
use open_vix_disk_lib.Fastlz.{Codec}
use open_vix_disk_lib.AioMsg
use open_vix_disk_lib.Aio.{NfcDisk, nfc_aio_hdr_size, pack_aio_hdr}
use open_vix_disk_lib.Aio.Frames.{
  IsU32, hdr_bytes, length-hdr_bytes, pack_aio_hdr_lem, unpack-pack_aio_hdr,
}
use open_vix_disk_lib.Aio.Refused.{refusal, some-eq, none-some}
use open_vix_disk_lib.Read.Rounds.{read_loop_step, read_loop_round}
use open_vix_disk_lib.Read.Fragment.{Buffer, Reading, Progress, recv_io_reply, start, advance}
use open_vix_disk_lib.Read.{read_fragment, read_loop, finish_read, readinto}
use open_vix_disk_lib.Read.Replies.{Reply, wire, chunk_of, received, read_fragment_lem}
use open_vix_disk_lib.Read.Reassembly.{
  replies, placed, total, Accepted, CanRead, request, asked, transfer_lem, readinto_guarded,
}

-- A header of another frame: nothing behind it is read.
recv_io_reply_refused :
    (c : Conn) (op_id t o size : ℕ) (ys : Bytes) (e : Error)
    → c.is_open ≡ true
    → IsU32 t
    → IsU32 o
    → IsU32 size
    → refusal AioMsg.io op_id t o size ≡ some e
    → Delivers c.incoming (hdr_bytes t size o ++ ys)
    → (rest : List Arrival) × (recv_io_reply op_id c ≡ (err e, record c { incoming = rest }))
      × Delivers rest ys
unfolding recv_io_reply
recv_io_reply_refused c op_id t o size ys e open_ ht ho hs refuse del =
    let hdr : Bytes = hdr_bytes t size o in
    let (rest, run_e, del') = recvn-Delivers c hdr ys open_ del in
    let l : length hdr ≡ nfc_aio_hdr_size = length-hdr_bytes t size o in
    let packed : pack_aio_hdr t size o ≡ ok hdr = pack_aio_hdr_lem t size o ht hs ho in
    let h = unpack-pack_aio_hdr t size o hdr packed in
    (
      rest,
      elim (Bool-cases (t == AioMsg.error)) [
        | inl y ↦ rw (rw l at run_e, h, y, some-eq (rw (refusal, y) at refuse)) refl
        | inr n ↦ elim (Bool-cases (not (t == AioMsg.io) || not (o == op_id))) [
          | inl w ↦ rw (rw l at run_e, h, n, w, some-eq (rw (refusal, n, w) at refuse)) refl
          | inr w ↦ absurd (none-some (rw (refusal, n, w) at refuse))
        ]
      ],
      del',
    )

module _ (lz : Codec) (op_id len t o size : ℕ) (e : Error) where
  -- The fragments before it stand in the buffer.
  abbrev Stopped : ℕ → Progress → Reading → List Reply → Bytes → Type 0
  Stopped fuel p s fs ys =
      (rest : List Arrival) × (read_loop lz fuel op_id len false p s ≡ (
        err e,
        record s {
          disk = record s.disk { sock = record s.disk.sock { incoming = rest } };
          buf = placed fs s.buf;
        },
      ))
      × Delivers rest ys

  read_fragment_refused :
      (p : Progress) (s : Reading) (ys : Bytes)
      → s.disk.sock.is_open ≡ true
      → IsU32 t
      → IsU32 o
      → IsU32 size
      → refusal AioMsg.io op_id t o size ≡ some e
      → Delivers s.disk.sock.incoming (hdr_bytes t size o ++ ys)
      → (rest : List Arrival) × (read_fragment lz op_id len false p s ≡ (
        err e,
        record s { disk = record s.disk { sock = record s.disk.sock { incoming = rest } } },
      ))
        × Delivers rest ys
  unfolding read_fragment
  read_fragment_refused p s ys open_ ht ho hs refuse del =
      let (rest, run_e, del') =
        recv_io_reply_refused s.disk.sock op_id t o size ys e open_ ht ho hs refuse del in
      (rest, rw run_e refl, del')

  read_loop_refused :
      (fuel : ℕ) (p : Progress) (s : Reading) (fs : List Reply) (ys : Bytes)
      → IsU32 op_id
      → s.disk.sock.is_open ≡ true
      → len ≤ length s.buf
      → Accepted lz len p.seen fs
      → p.filled + total fs < len
      → len ≤ p.filled + fuel
      → IsU32 t
      → IsU32 o
      → IsU32 size
      → refusal AioMsg.io op_id t o size ≡ some e
      → Delivers s.disk.sock.incoming (replies op_id fs ++ (hdr_bytes t size o ++ ys))
      → Stopped fuel p s fs ys
  read_loop_refused zero p s fs ys hop open_ room acc short enough ht ho hs refuse del =
      absurd (omega arith)
  read_loop_refused (suc fuel) p s [] ys hop open_ room acc short enough ht ho hs refuse del =
      let (rest, run_e, del') = read_fragment_refused p s ys open_ ht ho hs refuse del in
      (rest, rw (read_loop_step lz op_id len false fuel p s (omega arith), run_e) refl, del')
  read_loop_refused (suc fuel) p s (f ∷ fs) ys hop open_ room acc short enough ht ho hs refuse del =
      let (v, new, some_, inside, more) = acc in
      let behind : Bytes = hdr_bytes t size o ++ ys in
      let regroup = append_assoc (wire op_id f) (replies op_id fs) behind in
      let (rest, run_e, del') =
        read_fragment_lem lz f v s (replies op_id fs ++ behind) op_id len p hop open_ new some_
          inside room (record { pieces = del.pieces; bytes = del.bytes ∙ regroup }) in
      let p' : Progress = advance (chunk_of lz f v) p in
      let s' : Reading = received f rest s in
      let lb : length s'.buf ≡ length s.buf = length-blit f.dest f.bytes s.buf in
      let (rest', more_e, del'') =
        read_loop_refused fuel p' s' fs ys hop open_ (omega arith) more (omega arith) (omega arith)
          ht ho hs refuse del' in
      (rest', read_loop_round lz op_id len false fuel p p' s s' (omega arith) run_e ∙ more_e, del'')

module _ (lz : Codec) (d : NfcDisk) (b : Buffer) (start_sector num_sectors : ℕ)
    (can : CanRead d b start_sector num_sectors) (fs : List Reply) (ys : Bytes) where
  abbrev len : ℕ
  len = num_sectors * d.sector_size

  -- A call of `readinto` that can be sent, without skipping decompression: if the server sends
  -- fragments that are accepted and together bring fewer bytes than were asked for, and then a
  -- header of an ERROR frame, or of another type or operation id than the request has, then the
  -- call raises the protocol error that names the numbers of that header; the buffer has the
  -- fragments that came before it, and nothing behind the header is read, not even the payload that
  -- it announces.
  pub readinto_refused :
      (t o size : ℕ) (e : Error)
      → Accepted lz len [] fs
      → total fs < len
      → IsU32 t
      → IsU32 o
      → IsU32 size
      → refusal AioMsg.io d.op_id t o size ≡ some e
      → Delivers d.sock.incoming (replies d.op_id fs ++ (hdr_bytes t size o ++ ys))
      → (rest : List Arrival) × (readinto lz start_sector num_sectors b false d ≡ (
        err e,
        record d {
          op_id = d.op_id + 1;
          sock = record d.sock {
            incoming = rest;
            sent = d.sock.sent ++ (request d start_sector len ∷ []);
          };
        },
        record b { bytes = placed fs b.bytes },
      ))
        × Delivers rest ys
  unfolding finish_read
  readinto_refused t o size e acc short ht ho hs refuse del =
      let s : Reading = record { disk = asked d start_sector len; buf = b.bytes } in
      let (rest, run_e, del') =
        read_loop_refused lz d.op_id len t o size e len start s fs ys can.op_id_fits
          can.can_send.is_open can.room acc (omega arith) (omega arith) ht ho hs refuse del in
      (
        rest,
        rw
            (
              readinto_guarded lz d b start_sector num_sectors false can,
              transfer_lem lz d b.bytes start_sector len false can.can_send can.op_id_fits
                  can.fields_fit,
              run_e,
            )
            refl,
        del',
      )
