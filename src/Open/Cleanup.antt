-- ===== src/Open/Cleanup.antt =====
-- The socket of a disk through `open_disk` and `NfcDisk.close` (openvixdisklib/nfc_open.py).
use open_vix_disk_lib.Prelude.{ℕ, ◌≡◌, refl, ap, ◌∙◌, Bool, true, false, if◌then◌else◌}
use open_vix_disk_lib.Error.{Result, ok, err}
use open_vix_disk_lib.Exec.{Exec, modify, clean_up, finally}
use open_vix_disk_lib.Exec.Leaves.{Leaves, leaves_rules}
use open_vix_disk_lib.Struct.{Bytes}
use open_vix_disk_lib.Conn.{Conn, recvn, sendall, send_nfc_msg, recv_nfc_msg}
use open_vix_disk_lib.Conn.Ends.{recvn-Ends}
use open_vix_disk_lib.Conn.Send.{sendall-SendEnds}
use open_vix_disk_lib.Text.{Text}
use open_vix_disk_lib.Aio.{
  NfcDisk, on_sock, next_op_id, aio_send, recv_body, aio_recv_reply, aio_roundtrip,
}
use open_vix_disk_lib.Open.{
  expect_msg, handshake, aio_prepare, open_file, OpenArgs, close_sock, open_steps, open_over,
  close_steps, close_disk,
}

abbrev conn_open : Conn → Bool
conn_open c = c.is_open

abbrev pub disk_open : NfcDisk → Bool
disk_open d = d.sock.is_open

recvn-Leaves : (n : ℕ) → Leaves conn_open (recvn n)
recvn-Leaves n = record { at = λ c. (recvn-Ends n c).same.is_open }

sendall-Leaves : (bs : Bytes) → Leaves conn_open (sendall bs)
sendall-Leaves bs = record { at = λ c. (sendall-SendEnds bs c).is_open }

ruleset conn_rules = (leaves_rules, recvn-Leaves, sendall-Leaves)

send_nfc_msg-Leaves : (t : ℕ) (body : Bytes) → Leaves conn_open (send_nfc_msg t body)
unfolding send_nfc_msg
send_nfc_msg-Leaves t body = search conn_rules

recv_nfc_msg-Leaves : Leaves conn_open recv_nfc_msg
unfolding recv_nfc_msg
recv_nfc_msg-Leaves = search conn_rules

expect_msg-Leaves : (t : ℕ) → Leaves conn_open (expect_msg t)
unfolding expect_msg
expect_msg-Leaves t = search (conn_rules, recv_nfc_msg-Leaves)

ruleset msg_rules = (conn_rules, send_nfc_msg-Leaves, expect_msg-Leaves)

handshake-Leaves :
    (client_name op_id : Text) (version : ℕ)
    → Leaves conn_open (handshake client_name op_id version)
unfolding handshake
handshake-Leaves client_name op_id version = search msg_rules depth 40

recv_body-Leaves : (n : ℕ) → Leaves conn_open (recv_body n)
unfolding recv_body
recv_body-Leaves n = search conn_rules

aio_recv_reply-Leaves : Leaves conn_open aio_recv_reply
unfolding aio_recv_reply
aio_recv_reply-Leaves = search (conn_rules) depth 20

on_sock-Leaves : {A : Type 0} (m : Exec Conn A) → Leaves conn_open m → Leaves disk_open (on_sock m)
on_sock-Leaves m k = record { at = λ d. k.at d.sock }

next_op_id-Leaves : Leaves disk_open next_op_id
unfolding next_op_id
next_op_id-Leaves = record { at = λ d. refl }

ruleset disk_rules = (leaves_rules, on_sock-Leaves, next_op_id-Leaves)

aio_send-Leaves : (t : ℕ) (payload extra : Bytes) → Leaves disk_open (aio_send t payload extra)
unfolding aio_send
aio_send-Leaves t payload extra = search (disk_rules, sendall-Leaves) depth 20

pub aio_roundtrip-Leaves :
    (t : ℕ) (payload extra : Bytes) (n : ℕ) → Leaves disk_open (aio_roundtrip t payload extra n)
unfolding aio_roundtrip
aio_roundtrip-Leaves t payload extra n =
    search (disk_rules, aio_send-Leaves, aio_recv_reply-Leaves, recv_body-Leaves) depth 20

set_fields-Leaves :
    (h s : ℕ)
    → Leaves disk_open (modify (λ (d : NfcDisk). record d { handle = h; sector_size = s }))
set_fields-Leaves h s = record { at = λ d. refl }

ruleset round_rules = (disk_rules, aio_roundtrip-Leaves)

aio_prepare-Leaves : Leaves disk_open aio_prepare
unfolding aio_prepare
aio_prepare-Leaves = search round_rules depth 20

open_file-Leaves : (path : Text) (read_only : Bool) → Leaves disk_open (open_file path read_only)
unfolding open_file
open_file-Leaves path read_only = search (round_rules, set_fields-Leaves) depth 20

open_steps-Leaves : (a : OpenArgs) → Leaves disk_open (open_steps a)
unfolding open_steps
open_steps-Leaves a =
    search (disk_rules, handshake-Leaves, aio_prepare-Leaves, open_file-Leaves) depth 20

abbrev pub is_ok {ℓ} : {A : Type ℓ} → Result A → Bool
is_ok (ok a) = true
is_ok (err e) = false

clean_up_open :
    (r : Result (Unit {0})) (d : NfcDisk)
    → disk_open (clean_up close_sock (r, d)).1
      ≡ (if is_ok (clean_up close_sock (r, d)).0 then disk_open d else false)
clean_up_open (ok u) d = refl
clean_up_open (err e) d = refl

-- After the steps of `open_disk` over its socket, that socket is open exactly if it was before and
-- the call returned: any exception closes it, and a return leaves it as it was.
pub open_over_socket :
    (a : OpenArgs) (d : NfcDisk)
    → disk_open (open_over a d).1 ≡ (if is_ok (open_over a d).0 then disk_open d else false)
unfolding open_over
open_over_socket a d =
    clean_up_open (open_steps a d).0 (open_steps a d).1
    ∙ ap
        (λ (b : Bool).
          if is_ok (clean_up close_sock ((open_steps a d).0, (open_steps a d).1)).0
          then b
          else false)
        ((open_steps-Leaves a).at d)

abbrev pub disk_closed : NfcDisk → Bool
disk_closed d = d.closed

pub on_sock-closed : {A : Type 0} (m : Exec Conn A) → Leaves disk_closed (on_sock m)
on_sock-closed m = record { at = λ d. refl }

pub next_op_id-closed : Leaves disk_closed next_op_id
unfolding next_op_id
next_op_id-closed = record { at = λ d. refl }

pub ruleset closed_rules = (leaves_rules, on_sock-closed, next_op_id-closed)

aio_send-closed : (t : ℕ) (payload extra : Bytes) → Leaves disk_closed (aio_send t payload extra)
unfolding aio_send
aio_send-closed t payload extra = search closed_rules depth 20

pub aio_roundtrip-closed :
    (t : ℕ) (payload extra : Bytes) (n : ℕ) → Leaves disk_closed (aio_roundtrip t payload extra n)
unfolding aio_roundtrip
aio_roundtrip-closed t payload extra n = search (closed_rules, aio_send-closed) depth 20

close_steps-closed : Leaves disk_closed close_steps
unfolding close_steps
close_steps-closed = search (closed_rules, aio_roundtrip-closed) depth 20

abbrev closing : Bool → NfcDisk → Result (Unit {0}) × NfcDisk
closing b d = if b then (ok tt, d) else finally close_sock close_steps (record d { closed = true })

closing_marks :
    (b : Bool) (d : NfcDisk)
    → d.closed ≡ b
    → (disk_closed (closing b d).1 ≡ true)
      × (disk_open (closing b d).1 ≡ (if b then disk_open d else false))
closing_marks true d h = (h, refl)
closing_marks false d h = (close_steps-closed.at (record d { closed = true }), refl)

-- However the exchange with the server ends, `NfcDisk.close` leaves the disk marked as closed; a
-- first `close` has closed the socket, and a later one leaves the socket as it is.
pub close_disk_marks :
    (d : NfcDisk)
    → (disk_closed (close_disk d).1 ≡ true)
      × (disk_open (close_disk d).1 ≡ (if d.closed then disk_open d else false))
unfolding close_disk
close_disk_marks d = closing_marks d.closed d refl

closing_done : (d : NfcDisk) → d.closed ≡ true → close_disk d ≡ (ok tt, d)
unfolding close_disk
closing_done d h = ap (λ (b : Bool). closing b d) h

-- A second `NfcDisk.close` returns and changes nothing: it sends nothing and does not raise,
-- however the first one ended.
pub close_disk_twice : (d : NfcDisk) → close_disk (close_disk d).1 ≡ (ok tt, (close_disk d).1)
close_disk_twice d = closing_done (close_disk d).1 (close_disk_marks d).0
