-- ===== src/NfcMsg.antt =====
-- The `NFC_MSG_*` types of classic messages (openvixdisklib/nfc_open.py).
use Prim.Native.Nat.{ℕ}

abbrev pub session_complete : ℕ
session_complete = 4

abbrev pub session_params : ℕ
session_params = 33

abbrev pub session_params_reply : ℕ
session_params_reply = 36

abbrev pub handshake : ℕ
handshake = 43

abbrev pub version : ℕ
version = 51

abbrev pub aio_session_open : ℕ
aio_session_open = 52

abbrev pub connection_data : ℕ
connection_data = 54

abbrev pub session_features : ℕ
session_features = 55
