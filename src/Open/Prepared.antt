-- ===== src/Open/Prepared.antt =====
-- `_aio_prepare` (openvixdisklib/nfc_open.py) with a server that follows the protocol.
use open_vix_disk_lib.Prelude.{
  ℕ, ◌+◌, ◌^◌, ◌<◌, ◌≤◌, ◌≡◌, ◌≢◌, ◌==◌, if◌then◌else◌, le→ltb_false, refl, List, [], ◌∷◌, ◌++◌,
  append-nil, arith, length, replicate,
}
use open_vix_disk_lib.Error.{ok}
use open_vix_disk_lib.Struct.{Bytes, Field, u32, unpack_from}
use open_vix_disk_lib.Struct.Laws.{layout, length-layout, pack-Fits}
use open_vix_disk_lib.Conn.{Arrival}
use open_vix_disk_lib.Conn.Receive.{Delivers}
use open_vix_disk_lib.Conn.Send.{CanSend}
use open_vix_disk_lib.AioMsg
use open_vix_disk_lib.Aio.{NfcDisk, aio_roundtrip}
use open_vix_disk_lib.Aio.Frames.{IsU32, frame}
use open_vix_disk_lib.Aio.Exchange.{aio_roundtrip_lem}
use open_vix_disk_lib.Open.{aio_prepare, parse_open_reply}

-- The disk after a request went out under the next operation id, and its answer came in.
abbrev pub answered : ℕ → Bytes → Bytes → List Arrival → NfcDisk → NfcDisk
answered t payload extra rest d = record d {
  op_id = d.op_id + 1;
  sock = record d.sock {
    incoming = rest;
    sent = d.sock.sent ++ (frame t d.op_id payload extra ∷ []);
  };
}

-- A request whose reply has no extra.
pub plain_roundtrip :
    (t : ℕ) (payload extra body ys : Bytes) (d : NfcDisk)
    → CanSend d.sock
    → IsU32 t
    → IsU32 d.op_id
    → IsU32 (length payload)
    → IsU32 (length body)
    → t ≢ AioMsg.error
    → Delivers d.sock.incoming (frame t d.op_id body ys)
    → (rest : List Arrival) × (aio_roundtrip t payload extra 0 d
        ≡ (ok body, answered t payload extra rest d))
      × Delivers rest ys
plain_roundtrip t payload extra body ys d can ht ho hp hb ne del =
    let (rest, e, del') = aio_roundtrip_lem d t payload extra body [] ys can ht ho hp hb ne del in
    (rest, rw (append-nil body) at e, del')

-- The bodies of the four replies. That to OPEN_FILE has at least 40 bytes (docs/nfc_open.md): the handle
-- at offset 8, the file type of a disk, which is 2, at 16, the flags at 20, and the sector size at 36,
-- where 0 stands for 512.
pub record Answers : Type 0 where
  pub session : Bytes
  pub opts : Bytes
  pub pool : Bytes
  pub file : Bytes
  pub handle : ℕ
  pub sector_size : ℕ
  pub session_fits : IsU32 (length session)
  pub opts_fits : IsU32 (length opts)
  pub pool_fits : IsU32 (length pool)
  pub file_fits : IsU32 (length file)
  pub flags : ℕ
  pub sector_word : ℕ
  pub file_length : 40 ≤ length file
  pub handle_at : unpack_from 8 file 8 ≡ ok handle
  pub file_type_at : unpack_from 4 file 16 ≡ ok 2
  pub flags_at : unpack_from 4 file 20 ≡ ok flags
  pub sector_size_at : unpack_from 4 file 36 ≡ ok sector_word
  pub sector_size_is : sector_size ≡ (if sector_word == 0 then 512 else sector_word)

pub parse_open_reply_lem : (r : Answers) → parse_open_reply r.file ≡ ok (r.handle, r.sector_size)
unfolding parse_open_reply
parse_open_reply_lem r =
    rw
      (
        le→ltb_false (length r.file) 40 r.file_length,
        r.handle_at,
        r.file_type_at,
        r.flags_at,
        r.sector_size_at,
        r.sector_size_is,
      )
      refl

abbrev pub prepared : Answers → ℕ → Bytes → Bytes
prepared r o ys =
    frame AioMsg.open_session o r.session
      (frame AioMsg.set_sock_opts (o + 1) r.opts (frame AioMsg.set_res_pool (o + 1 + 1) r.pool ys))

abbrev session_fields : NfcDisk → List Field
session_fields d = u32 0 ∷ u32 d.aio_buffer_size ∷ u32 d.aio_buffer_count ∷ u32 0 ∷ []

-- The disk after the three requests.
abbrev pub ready : NfcDisk → List Arrival → NfcDisk
ready d rest = record d {
  op_id = d.op_id + 1 + 1 + 1;
  sock = record d.sock {
    incoming = rest;
    sent =
        d.sock.sent
        ++ (frame AioMsg.open_session d.op_id (layout (session_fields d)) [] ∷ [])
        ++ (frame AioMsg.set_sock_opts (d.op_id + 1) (replicate 12 0) [] ∷ [])
        ++ (frame AioMsg.set_res_pool (d.op_id + 1 + 1) (layout (u32 1 ∷ [])) [] ∷ []);
  };
}

pub aio_prepare_lem :
    (r : Answers) (ys : Bytes) (d : NfcDisk)
    → CanSend d.sock
    → d.op_id + 2 < 2 ^ 32
    → IsU32 d.aio_buffer_size
    → IsU32 d.aio_buffer_count
    → Delivers d.sock.incoming (prepared r d.op_id ys)
    → (rest : List Arrival) × (aio_prepare d ≡ (ok tt, ready d rest)) × Delivers rest ys
unfolding aio_prepare
aio_prepare_lem r ys d can ho hs hc del =
    let l = length-layout (session_fields d) in
    let l3 = length-layout (u32 1 ∷ []) in
    let (r1, e1, d1) =
      plain_roundtrip AioMsg.open_session (layout (session_fields d)) [] r.session
        (frame AioMsg.set_sock_opts (d.op_id + 1) r.opts
          (frame AioMsg.set_res_pool (d.op_id + 1 + 1) r.pool ys))
        d can (omega arith) (omega arith) (omega arith) r.session_fits (λ e. omega arith) del in
    let w1 : NfcDisk = answered AioMsg.open_session (layout (session_fields d)) [] r1 d in
    let (r2, e2, d2) =
      plain_roundtrip AioMsg.set_sock_opts (replicate 12 0) [] r.opts
        (frame AioMsg.set_res_pool (d.op_id + 1 + 1) r.pool ys) w1
        (record { is_open = can.is_open; no_faults = can.no_faults }) (omega arith) (omega arith)
        (omega arith) r.opts_fits (λ e. omega arith) d1 in
    let w2 : NfcDisk = answered AioMsg.set_sock_opts (replicate 12 0) [] r2 w1 in
    let (r3, e3, d3) =
      plain_roundtrip AioMsg.set_res_pool (layout (u32 1 ∷ [])) [] r.pool ys w2
        (record { is_open = can.is_open; no_faults = can.no_faults }) (omega arith) (omega arith)
        (omega arith) r.pool_fits (λ e. omega arith) d2 in
    (
      r3,
      rw
          (
            pack-Fits (session_fields d) (omega arith, (hs, (hc, (omega arith, tt)))),
            e1,
            e2,
            pack-Fits (u32 1 ∷ []) (omega arith),
            e3,
          )
          refl,
      d3,
    )
