-- ===== src/Conn/Messages.antt =====
-- `_send_nfc_msg` and `_recv_nfc_msg` (openvixdisklib/nfc_open.py) on a socket that can send and delivers.
use open_vix_disk_lib.Prelude.{
  ℕ, ◌-◌, ◌^◌, ◌≤◌, ◌<◌, ◌≡◌, refl, true, List, [], ◌∷◌, ◌++◌, arith, length, drop, le→ltb_false,
}
use open_vix_disk_lib.Error.{ok}
use open_vix_disk_lib.Struct.{Bytes, u32, unpack_from}
use open_vix_disk_lib.Struct.Laws.{layout, pack-Fits}
use open_vix_disk_lib.Conn.{Arrival, Conn, nfc_msg_size, ljust, send_nfc_msg, recv_nfc_msg}
use open_vix_disk_lib.Conn.Receive.{Delivers, recvn-Delivers}
use open_vix_disk_lib.Conn.Send.{CanSend, sendall_lem}

-- The bytes of a message that is sent.
abbrev pub message : ℕ → Bytes → Bytes
message msg_type body = ljust nfc_msg_size (layout (u32 msg_type ∷ []) ++ body)

-- Bytes that come in as a message of a type.
pub record IsMessage (msg_type : ℕ) (m : Bytes) : Type 0 where
  pub size : length m ≡ nfc_msg_size
  pub type_read : unpack_from 4 m 0 ≡ ok msg_type

-- The connection after it sent frames.
abbrev pub sending : List Bytes → Conn → Conn
sending frames c = record c { sent = c.sent ++ frames }

pub send_nfc_msg_lem :
    (t : ℕ) (body : Bytes) (c : Conn)
    → CanSend c
    → t < 2 ^ 32
    → length body ≤ nfc_msg_size - 4
    → send_nfc_msg t body c ≡ (ok tt, sending (message t body ∷ []) c)
unfolding send_nfc_msg
send_nfc_msg_lem t body c can ht hb =
    rw
      (
        le→ltb_false (nfc_msg_size - 4) (length body) hb,
        pack-Fits (u32 t ∷ []) (omega arith),
        sendall_lem c (message t body) can,
      )
      refl

pub recv_nfc_msg_lem :
    (t : ℕ) (m ys : Bytes) (c : Conn)
    → c.is_open ≡ true
    → IsMessage t m
    → Delivers c.incoming (m ++ ys)
    → (rest : List Arrival) × (recv_nfc_msg c ≡ (ok (t, drop 4 m), record c { incoming = rest }))
      × Delivers rest ys
unfolding recv_nfc_msg
recv_nfc_msg_lem t m ys c o is del =
    let (rest, e, del') = recvn-Delivers c m ys o del in
    (rest, rw (rw is.size at e, is.type_read) refl, del')
