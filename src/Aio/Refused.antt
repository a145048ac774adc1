-- ===== src/Aio/Refused.antt =====
-- Replies that `_aio_recv_reply` and `_aio_roundtrip` (openvixdisklib/nfc_open.py) refuse.
use open_vix_disk_lib.Prelude.{
  ℕ, ◌+◌, ◌≡◌, ◌≢◌, refl, true, ◌⊎◌, inl, inr, Option, none, some, not, ◌||◌, List, [], ◌∷◌, ◌++◌,
  arith, ◌==◌, ==_iff, length, if◌then◌else◌, Bool-cases,
}
use open_vix_disk_lib.Error.{Error, ok, err, protocol_error, aio_error, unexpected_reply}
use open_vix_disk_lib.Struct.{Bytes}
use open_vix_disk_lib.Conn.{Arrival, Conn}
use open_vix_disk_lib.Conn.Send.{CanSend}
use open_vix_disk_lib.Conn.Receive.{Delivers, recvn-Delivers}
use open_vix_disk_lib.AioMsg
use open_vix_disk_lib.Aio.{
  nfc_aio_hdr_size, check_magic, check_type, NfcDisk, aio_recv_reply, aio_roundtrip,
}
use open_vix_disk_lib.Aio.Frames.{IsU32, hdr_bytes, frame, length-hdr_bytes, unpack_words-hdr_bytes}
use open_vix_disk_lib.Aio.Exchange.{requested, aio_send_lem, recv_body_lem, aio_recv_reply_lem}

-- What the headers' numbers say: an ERROR frame is refused, and so is a frame of another type or
-- operation id than the request's.
abbrev pub refusal : (msg_type op_id rtype rop size : ℕ) → Option Error
refusal msg_type op_id rtype rop size =
    if rtype == AioMsg.error
    then some (protocol_error (aio_error rop size))
    else if not (rtype == msg_type) || not (rop == op_id)
    then some (protocol_error (unexpected_reply rtype rop msg_type op_id))
    else none

module _ (c : Conn) (o : ℕ) (body ys : Bytes) where
  -- An ERROR frame is read whole, and raised.
  pub aio_recv_reply-error :
      c.is_open ≡ true
      → IsU32 o
      → IsU32 (length body)
      → Delivers c.incoming (frame AioMsg.error o body ys)
      → (rest : List Arrival) × (aio_recv_reply c
          ≡ (err (protocol_error (aio_error o (length body))), record c { incoming = rest }))
        × Delivers rest ys
  unfolding aio_recv_reply
  aio_recv_reply-error open_ ho hb d =
      let hdr : Bytes = hdr_bytes AioMsg.error (length body) o in
      let (rest, e, d') = recvn-Delivers c hdr (body ++ ys) open_ d in
      let (rest', e', d'') = recv_body_lem (record c { incoming = rest }) body ys open_ d' in
      let l : length hdr ≡ nfc_aio_hdr_size = length-hdr_bytes AioMsg.error (length body) o in
      (
        rest',
        rw
            (
              rw l at e,
              unpack_words-hdr_bytes AioMsg.error (length body) o (omega arith) hb ho,
              check_magic,
            )
            (rw (e', check_type) refl),
        d'',
      )

-- A refused frame: either it is an ERROR frame and raised, or it is returned, and the caller refuses
-- it. Either way it is read whole.
abbrev pub Refuses : Conn → (want_t want_o t o : ℕ) (body ys : Bytes) (e : Error) → Type 0
Refuses c want_t want_o t o body ys e =
    (rest : List Arrival) × ((aio_recv_reply c ≡ (err e, record c { incoming = rest }))
      ⊎ ((aio_recv_reply c ≡ (ok (t, o, body), record c { incoming = rest }))
          × ((not (t == want_t) || not (o == want_o)) ≡ true)
          × (protocol_error (unexpected_reply t o want_t want_o) ≡ e)))
    × Delivers rest ys

pub some-eq : {a b : Error} → some a ≡ some b → a ≡ b
some-eq p = cc

pub none-some : {a : Error} → none ≡ some a → ⊥
none-some p = cc

pub aio_recv_reply_refused :
    (c : Conn) (want_t want_o t o : ℕ) (body ys : Bytes) (e : Error)
    → c.is_open ≡ true
    → IsU32 t
    → IsU32 o
    → IsU32 (length body)
    → refusal want_t want_o t o (length body) ≡ some e
    → Delivers c.incoming (frame t o body ys)
    → Refuses c want_t want_o t o body ys e
aio_recv_reply_refused c want_t want_o t o body ys e open_ ht ho hb refuse del =
    elim (Bool-cases (t == AioMsg.error)) [
      | inl y ↦
          let same : t ≡ AioMsg.error = (==_iff t AioMsg.error).0 y in
          let (rest, run_e, del') = aio_recv_reply-error c o body ys open_ ho hb (rw same at del) in
          let raised = some-eq (rw (refusal, y) at refuse) in (rest, inl (rw raised at run_e), del')
      | inr n ↦
          let ne : t ≢ AioMsg.error = λ e. ground (arith, e) in
          let (rest, run_e, del') = aio_recv_reply_lem c t o body ys open_ ht ho hb ne del in
          (
            rest,
            elim (Bool-cases (not (t == want_t) || not (o == want_o))) [
              | inl w ↦ inr (run_e, w, some-eq (rw (refusal, n, w) at refuse))
              | inr w ↦ absurd (none-some (rw (refusal, n, w) at refuse))
            ],
            del',
          )
    ]

module _ (d : NfcDisk) (t : ℕ) (payload extra : Bytes) where
  -- If a socket can send and delivers, as the reply to a request, an ERROR frame or a frame of
  -- another type or operation id than the request has, and all numbers fit 32 bits, then
  -- `_aio_roundtrip` raises the protocol error that names the numbers of that frame; it has sent
  -- the request under the next operation id, has read the frame whole, and has read no byte behind
  -- it, not even the extra bytes that it was asked to read.
  pub aio_roundtrip_refused :
      (rtype rop more : ℕ) (body ys : Bytes) (e : Error)
      → CanSend d.sock
      → IsU32 t
      → IsU32 d.op_id
      → IsU32 (length payload)
      → IsU32 rtype
      → IsU32 rop
      → IsU32 (length body)
      → refusal t d.op_id rtype rop (length body) ≡ some e
      → Delivers d.sock.incoming (frame rtype rop body ys)
      → (rest : List Arrival) × (aio_roundtrip t payload extra more d ≡ (
        err e,
        record d {
          op_id = d.op_id + 1;
          sock = record d.sock {
            incoming = rest;
            sent = d.sock.sent ++ (frame t d.op_id payload extra ∷ []);
          };
        },
      ))
        × Delivers rest ys
  unfolding aio_roundtrip
  aio_roundtrip_refused rtype rop more body ys e can ht ho hp hrt hro hb refuse del =
      let d1 : NfcDisk = requested (frame t d.op_id payload extra) d in
      let (rest, heard, del') =
        aio_recv_reply_refused d1.sock t d.op_id rtype rop body ys e can.is_open hrt hro hb refuse
          del in
      let sent = aio_send_lem t payload extra d can ht hp ho in
      (
        rest,
        elim heard [
          | inl run_e ↦ rw (sent, run_e) refl
          | inr (run_e, w, same) ↦ rw (sent, run_e, w, same) refl
        ],
        del',
      )
