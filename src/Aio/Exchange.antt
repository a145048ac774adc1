-- ===== src/Aio/Exchange.antt =====
-- `_aio_send`, `_aio_recv_reply` and `_aio_roundtrip` (openvixdisklib/nfc_open.py) against a server
-- that answers.
use open_vix_disk_lib.Prelude.{
  ℕ, ◌+◌, ◌≡◌, ◌≢◌, refl, true, false, List, [], ◌∷◌, ◌++◌, arith, ◌==◌, ==_refl, length,
}
use open_vix_disk_lib.Error.{ok}
use open_vix_disk_lib.Struct.{Bytes}
use open_vix_disk_lib.Conn.{Arrival, Conn}
use open_vix_disk_lib.Conn.Send.{CanSend, sendall_lem}
use open_vix_disk_lib.Conn.Receive.{Delivers, recvn-Delivers}
use open_vix_disk_lib.AioMsg
use open_vix_disk_lib.Aio.{
  nfc_aio_hdr_size, check_magic, check_type, NfcDisk, aio_send, recv_body, aio_recv_reply,
  aio_roundtrip,
}
use open_vix_disk_lib.Aio.Frames.{
  IsU32, hdr_bytes, frame, length-hdr_bytes, pack_aio_hdr_lem, unpack_words-hdr_bytes,
}

-- The disk after it took an operation id and sent `bs`.
abbrev pub requested : Bytes → NfcDisk → NfcDisk
requested bs d = record d {
  op_id = d.op_id + 1;
  sock = record d.sock { sent = d.sock.sent ++ (bs ∷ []) };
}

pub aio_send_lem :
    (t : ℕ) (payload extra : Bytes) (d : NfcDisk)
    → CanSend d.sock
    → IsU32 t
    → IsU32 (length payload)
    → IsU32 d.op_id
    → aio_send t payload extra d ≡ (ok d.op_id, requested (frame t d.op_id payload extra) d)
unfolding aio_send
aio_send_lem t payload extra d can ht hp ho =
    rw
      (
        pack_aio_hdr_lem t (length payload) d.op_id ht hp ho,
        sendall_lem d.sock (frame t d.op_id payload extra) can,
      )
      refl

pub recv_body_lem :
    (c : Conn) (body ys : Bytes)
    → c.is_open ≡ true
    → Delivers c.incoming (body ++ ys)
    → (rest : List Arrival) × (recv_body (length body) c ≡ (ok body, record c { incoming = rest }))
      × Delivers rest ys
unfolding recv_body
recv_body_lem c [] ys o d = (c.incoming, refl, d)
recv_body_lem c (b ∷ bs) ys o d =
    let (rest, e, d') = recvn-Delivers c (b ∷ bs) ys o d in
    let z : (length (b ∷ bs) == 0) ≡ false = ground arith in (rest, rw z e, d')

module _ (c : Conn) (t o : ℕ) (body ys : Bytes) where
  -- If an open socket delivers a frame of a type other than ERROR whose numbers fit 32 bits, then
  -- `_aio_recv_reply` returns its type, its operation id and its payload, and reads no byte more.
  pub aio_recv_reply_lem :
      c.is_open ≡ true
      → IsU32 t
      → IsU32 o
      → IsU32 (length body)
      → t ≢ AioMsg.error
      → Delivers c.incoming (frame t o body ys)
      → (rest : List Arrival) × (aio_recv_reply c ≡ (ok (t, o, body), record c { incoming = rest }))
        × Delivers rest ys
  unfolding aio_recv_reply
  aio_recv_reply_lem open_ ht ho hb ne d =
      let hdr : Bytes = hdr_bytes t (length body) o in
      let (rest, e, d') = recvn-Delivers c hdr (body ++ ys) open_ d in
      let (rest', e', d'') = recv_body_lem (record c { incoming = rest }) body ys open_ d' in
      let l : length hdr ≡ nfc_aio_hdr_size = length-hdr_bytes t (length body) o in
      let z : (t == AioMsg.error) ≡ false = ground arith in
      (
        rest',
        rw (rw l at e, unpack_words-hdr_bytes t (length body) o ht hb ho, check_magic)
            (rw (e', check_type, z) refl),
        d'',
      )

module _ (d : NfcDisk) (t : ℕ) (payload extra : Bytes) where
  -- If a socket can send and delivers the reply to a request of a type other than ERROR under the
  -- disk's next operation id, and all numbers of both headers fit 32 bits, then `_aio_roundtrip`
  -- returns the payload of the reply and the extra bytes behind it, has sent one frame under that
  -- id, and has read no byte more.
  pub aio_roundtrip_lem :
      (body more ys : Bytes)
      → CanSend d.sock
      → IsU32 t
      → IsU32 d.op_id
      → IsU32 (length payload)
      → IsU32 (length body)
      → t ≢ AioMsg.error
      → Delivers d.sock.incoming (frame t d.op_id body (more ++ ys))
      → (rest : List Arrival) × (aio_roundtrip t payload extra (length more) d ≡ (
        ok (body ++ more),
        record d {
          op_id = d.op_id + 1;
          sock = record d.sock {
            incoming = rest;
            sent = d.sock.sent ++ (frame t d.op_id payload extra ∷ []);
          };
        },
      ))
        × Delivers rest ys
  unfolding aio_roundtrip
  aio_roundtrip_lem body more ys can ht ho hp hb ne del =
      let d1 : NfcDisk = requested (frame t d.op_id payload extra) d in
      let (rest, e, del') =
        aio_recv_reply_lem d1.sock t d.op_id body (more ++ ys) can.is_open ht ho hb ne del in
      let (rest', e', del'') =
        recv_body_lem (record d1.sock { incoming = rest }) more ys can.is_open del' in
      (
        rest',
        rw (aio_send_lem t payload extra d can ht hp ho, e, ==_refl t, ==_refl d.op_id, e') refl,
        del'',
      )
