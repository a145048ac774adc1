-- ===== src/AioMsg.antt =====
-- The `NFC_AIO_MSG_*` types of AIO messages (openvixdisklib/nfc_open.py).
use Prim.Native.Nat.{ℕ}

abbrev pub error : ℕ
error = 1

abbrev pub open_session : ℕ
open_session = 2

abbrev pub close_session : ℕ
close_session = 3

abbrev pub open_file : ℕ
open_file = 4

abbrev pub close_file : ℕ
close_file = 5

abbrev pub io : ℕ
io = 7

abbrev pub set_sock_opts : ℕ
set_sock_opts = 9

-- A message that the package names and does not send.
abbrev ddb_get : ℕ
ddb_get = 11

abbrev pub set_res_pool : ℕ
set_res_pool = 22
