-- ===== src/Conn.antt =====
-- A socket as nfc_open.py and nfc_auth.py use it, and `_recvn_into`, `_recvn`, `_send_nfc_msg`,
-- `_recv_nfc_msg` (openvixdisklib/nfc_open.py).
--
-- What the peer sends arrives in pieces of the network's choice, so a `recv` may return less than it
-- is asked for. The pieces, and the outcomes of sends, are given beforehand: each run against a live
-- peer is a run of the model on the pieces that came.
pub mod Receive
pub mod Ends
pub mod Short
pub mod Any
pub mod Appended
pub mod Messages
pub mod Send
use open_vix_disk_lib.Prelude.{
  ℕ, zero, suc, ◌+◌, ◌-◌, List, [], ◌∷◌, ◌++◌, Bool, true, false, leb, ltb, ◌==◌, length, take,
  drop, replicate, blit, if◌then◌else◌,
}
use open_vix_disk_lib.Error.{
  Result, ok, err, Error, protocol_error, value_error, os_error, out_of_fuel, connection_closed,
  message_too_large,
}
use open_vix_disk_lib.Exec.{Exec, ◌>>=◌, ◌>>◌, pure, raise, lift, proceed, done, raise_if}
use open_vix_disk_lib.Struct.{Bytes, u32, pack, unpack_from}

-- A piece of what the peer sends (an empty one is the end of the stream), or a failure such as a
-- timeout or a reset.
pub data Arrival : Type 0 where
  piece : Bytes → Arrival
  failure : Arrival

-- `sent` holds the argument of each `sendall` that returned. A `true` in `send_faults` makes the
-- `sendall` at its place raise; past its end they succeed.
pub record Conn : Type 0 where
  pub incoming : List Arrival
  pub sent : List Bytes
  pub send_faults : List Bool
  pub is_open : Bool

abbrev pub close : Conn → Conn
close c = record c { is_open = false }

recv_from : ℕ → List Arrival → Conn → Result Bytes × Conn
recv_from n [] c = (ok [], c)
recv_from n (failure ∷ rest) c = (err os_error, record c { incoming = rest })
recv_from n (piece bs ∷ rest) c =
    if leb (length bs) n
    then (ok bs, record c { incoming = rest })
    else (ok (take n bs), record c { incoming = piece (drop n bs) ∷ rest })

-- `sock.recv(n)`: at most `n` bytes, and none at the end of the stream.
unfoldable pub recv : ℕ → Exec Conn Bytes
unfolding recv_from
recv n c = if c.is_open then recv_from n c.incoming c else (err os_error, c)

send_over : Bytes → List Bool → Conn → Result (Unit {0}) × Conn
send_over bs [] c = (ok tt, record c { sent = c.sent ++ (bs ∷ []) })
send_over bs (false ∷ rest) c = (ok tt, record c { sent = c.sent ++ (bs ∷ []); send_faults = rest })
send_over bs (true ∷ rest) c = (err os_error, record c { send_faults = rest })

-- `sock.sendall(bs)`
unfoldable pub sendall : Bytes → Exec Conn (Unit {0})
unfolding send_over
sendall bs c = if c.is_open then send_over bs c.send_faults c else (err os_error, c)

-- A buffer that a socket is read into.
pub record Target : Type 0 where
  pub conn : Conn
  pub buf : Bytes

pub store_got : ℕ → Bytes → Result Bytes × Conn → Result ℕ × Target
store_got at buf (ok got, c) = (ok (length got), record { conn = c; buf = blit at got buf })
store_got at buf (err e, c) = (err e, record { conn = c; buf = buf })

-- `sock.recv_into(view[at : at + n])`: the bytes go into the buffer, and their number comes back.
pub recv_into : ℕ → ℕ → Exec Target ℕ
unfolding store_got
recv_into at n t = store_got at t.buf (recv n t.conn)

-- The loop of `_recvn_into` on `view = data[start : start + n]`. A round receives a byte at least, so
-- `n` rounds are enough.
pub recv_loop : ℕ → ℕ → ℕ → ℕ → Exec Target (Unit {0})
recv_loop zero start n filled t = if ltb filled n then (err out_of_fuel, t) else (ok tt, t)
recv_loop (suc fuel) start n filled t =
    let more = proceed (recv_into (start + filled) (n - filled) t) (λ got t'.
      let rest = recv_loop fuel start n (filled + got) t' in
      if got == 0 then (err (protocol_error (connection_closed n filled)), t') else rest) in
    if ltb filled n then more else (ok tt, t)

unfoldable pub recvn_into : ℕ → ℕ → Exec Target (Unit {0})
unfolding recv_loop recv_into
recvn_into start n = recv_loop n start n 0

take_buffer : Result (Unit {0}) × Target → Result Bytes × Conn
take_buffer (ok _, t) = (ok t.buf, t.conn)
take_buffer (err e, t) = (err e, t.conn)

unfoldable pub recvn : ℕ → Exec Conn Bytes
unfolding take_buffer recvn_into
recvn size c = take_buffer (recvn_into 0 size (record { conn = c; buf = replicate size 0 }))

-- Classic messages, of 264 bytes.
abbrev pub nfc_msg_size : ℕ
nfc_msg_size = 264

-- `bs.ljust(n, b"\x00")`
abbrev pub ljust : ℕ → Bytes → Bytes
ljust n bs = bs ++ replicate (n - length bs) 0

unfoldable pub send_nfc_msg : ℕ → Bytes → Exec Conn (Unit {0})
send_nfc_msg msg_type body = do
  raise_if (ltb (nfc_msg_size - 4) (length body)) (value_error message_too_large)
  head ← lift (pack (u32 msg_type ∷ []))
  sendall (ljust nfc_msg_size (head ++ body))

unfoldable pub recv_nfc_msg : Exec Conn (ℕ × Bytes)
recv_nfc_msg = do
  frame ← recvn nfc_msg_size
  msg_type ← lift (unpack_from 4 frame 0)
  pure (msg_type, drop 4 frame)
