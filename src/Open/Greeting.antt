-- ===== src/Open/Greeting.antt =====
-- `_handshake` (openvixdisklib/nfc_open.py) with a server that follows the protocol.
use open_vix_disk_lib.Prelude.{
  ℕ, ◌^◌, ◌≤◌, ◌<◌, ◌≡◌, refl, ap, true, List, [], ◌∷◌, ◌++◌, arith, ==_refl, length, drop,
  le→ltb_false,
}
use open_vix_disk_lib.Error.{ok}
use open_vix_disk_lib.Struct.{Bytes, Field, u32, unpack_from}
use open_vix_disk_lib.Struct.Laws.{layout, length-layout, pack-Fits}
use open_vix_disk_lib.Conn.{Arrival, Conn, send_nfc_msg}
use open_vix_disk_lib.Conn.Receive.{Delivers}
use open_vix_disk_lib.Conn.Send.{CanSend, able, in_turn-append, sendall_lem}
use open_vix_disk_lib.Conn.Messages.{
  message, IsMessage, sending, send_nfc_msg_lem, recv_nfc_msg_lem,
}
use open_vix_disk_lib.Text.{Text, encode_ascii}
use open_vix_disk_lib.NfcMsg
use open_vix_disk_lib.Open.{
  plain_text, nfc_session_feature_interruption_switch, expect_msg, handshake,
}

expect_msg_lem :
    (t : ℕ) (m ys : Bytes) (c : Conn)
    → c.is_open ≡ true
    → IsMessage t m
    → Delivers c.incoming (m ++ ys)
    → (rest : List Arrival) × (expect_msg t c ≡ (ok (drop 4 m), record c { incoming = rest }))
      × Delivers rest ys
unfolding expect_msg
expect_msg_lem t m ys c o is del =
    let (rest, e, del') = recv_nfc_msg_lem t m ys c o is del in (rest, rw (e, ==_refl t) refl, del')

-- The three messages of a server whose protocol version is 3 or later.
pub record Greeting : Type 0 where
  pub params : Bytes
  pub version : Bytes
  pub ready : Bytes
  pub number : ℕ
  pub is_params : IsMessage NfcMsg.session_params_reply params
  pub is_version : IsMessage NfcMsg.version version
  pub is_ready : IsMessage NfcMsg.aio_session_open ready
  pub number_read : unpack_from 4 (drop 4 version) 0 ≡ ok number
  pub recent : 3 ≤ number

abbrev pub greeting : Greeting → Bytes → Bytes
greeting g ys = g.params ++ (g.version ++ (g.ready ++ ys))

-- What the client says, in the order in which it goes out.
abbrev pub hello : Bytes → Bytes → ℕ → List Bytes
hello name_b op_b version =
    message NfcMsg.handshake plain_text
    ∷ message NfcMsg.session_params []
    ∷ message NfcMsg.version (layout (u32 version ∷ []))
    ∷ message NfcMsg.connection_data (layout (u32 (length name_b) ∷ u32 (length op_b) ∷ []))
    ∷ name_b
    ∷ op_b
    ∷ message NfcMsg.session_features (layout (u32 nfc_session_feature_interruption_switch ∷ []))
    ∷ message NfcMsg.aio_session_open []
    ∷ []

-- The texts can be encoded, and all numbers fit their formats.
pub record CanGreet (client_name op_id : Text) (version : ℕ) (name_b op_b : Bytes) : Type 0 where
  pub name_encoded : encode_ascii client_name ≡ ok name_b
  pub op_encoded : encode_ascii op_id ≡ ok op_b
  pub version_fits : version < 2 ^ 32
  pub name_fits : length name_b < 2 ^ 32
  pub op_fits : length op_b < 2 ^ 32

abbrev saying : ℕ → Bytes → Conn → Conn
saying t body c = sending (message t body ∷ []) c

abbrev says :
    (t : ℕ) (body : Bytes) (c : Conn)
    → CanSend c
    → t < 2 ^ 32
    → length body ≤ 260
    → send_nfc_msg t body c ≡ (ok tt, saying t body c)
says t body c can ht hb = send_nfc_msg_lem t body c can ht hb

pub handshake_lem :
    (client_name op_id : Text) (version : ℕ) (name_b op_b : Bytes) (g : Greeting) (ys : Bytes)
    (c : Conn)
    → CanGreet client_name op_id version name_b op_b
    → CanSend c
    → Delivers c.incoming (greeting g ys)
    → (rest : List Arrival) × (handshake client_name op_id version c
        ≡ (ok tt, record c { incoming = rest; sent = c.sent ++ hello name_b op_b version }))
      × Delivers rest ys
unfolding handshake
handshake_lem client_name op_id version name_b op_b g ys c can cs del =
    let lengths : List Field = u32 (length name_b) ∷ u32 (length op_b) ∷ [] in
    let features : List Field = u32 nfc_session_feature_interruption_switch ∷ [] in
    let l1 = length-layout (u32 version ∷ []) in
    let l2 = length-layout lengths in
    let l3 = length-layout features in
    let c1 : Conn = saying NfcMsg.handshake plain_text c in
    let c2 : Conn = saying NfcMsg.session_params [] c1 in
    let (r2, e2, d2) =
      expect_msg_lem NfcMsg.session_params_reply g.params (g.version ++ (g.ready ++ ys)) c2
        cs.is_open g.is_params del in
    let c3 : Conn = record c2 { incoming = r2 } in
    let c4 : Conn = saying NfcMsg.version (layout (u32 version ∷ [])) c3 in
    let (r4, e4, d4) =
      expect_msg_lem NfcMsg.version g.version (g.ready ++ ys) c4 cs.is_open g.is_version d2 in
    let c5 : Conn = record c4 { incoming = r4 } in
    let c6 : Conn = saying NfcMsg.connection_data (layout lengths) c5 in
    let c7 : Conn = sending (name_b ∷ []) c6 in
    let c8 : Conn = sending (op_b ∷ []) c7 in
    let c9 : Conn = saying NfcMsg.session_features (layout features) c8 in
    let c10 : Conn = saying NfcMsg.aio_session_open [] c9 in
    let (r10, e10, d10) =
      expect_msg_lem NfcMsg.aio_session_open g.ready ys c10 cs.is_open g.is_ready d4 in
    (
      r10,
      rw
          (
            says NfcMsg.handshake plain_text c cs (omega arith) (omega arith),
            says NfcMsg.session_params [] c1 (able cs refl refl) (omega arith) (omega arith),
            e2,
            pack-Fits (u32 version ∷ []) (can.version_fits, tt),
            says NfcMsg.version (layout (u32 version ∷ [])) c3 (able cs refl refl) (omega arith)
                (omega arith),
            e4,
            g.number_read,
            le→ltb_false g.number 3 g.recent,
            can.name_encoded,
            can.op_encoded,
            pack-Fits lengths (can.name_fits, (can.op_fits, tt)),
            says NfcMsg.connection_data (layout lengths) c5 (able cs refl refl) (omega arith)
                (omega arith),
            sendall_lem c6 name_b (able cs refl refl),
            sendall_lem c7 op_b (able cs refl refl),
            pack-Fits features (omega arith),
            says NfcMsg.session_features (layout features) c8 (able cs refl refl) (omega arith)
                (omega arith),
            says NfcMsg.aio_session_open [] c9 (able cs refl refl) (omega arith) (omega arith),
            e10,
          )
          (ap (λ (t : List Bytes). (ok tt, record c { incoming = r10; sent = t }))
            (in_turn-append c.sent (hello name_b op_b version))),
      d10,
    )
