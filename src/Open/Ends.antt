-- ===== src/Open/Ends.antt =====
-- `NfcDisk.close` and the steps of `open_disk` (openvixdisklib/nfc_open.py) against any server.
use open_vix_disk_lib.Prelude.{[], ◌∷◌, ◌++◌, ℕ, ltb, ◌-◌, length, not, ◌==◌}
use open_vix_disk_lib.Error.{protocol_error, unexpected_message, value_error, message_too_large}
use open_vix_disk_lib.Exec.Runs.{
  Runs, Any, Runs-gets, Runs-lift, Runs-bind, Runs-then, Runs-pure, Runs-raise_if,
}
use open_vix_disk_lib.Struct.{Bytes, u32, u64, pack, unpack_from}
use open_vix_disk_lib.Conn.{send_nfc_msg, recv_nfc_msg, nfc_msg_size, ljust}
use open_vix_disk_lib.Conn.Any.{SameOut-Preorder, recvn-Runs}
use open_vix_disk_lib.AioMsg
use open_vix_disk_lib.NfcMsg
use open_vix_disk_lib.Aio.Yields.{pack-Yields, unpack_from-Yields}
use open_vix_disk_lib.Aio.Touches.{
  SameOut-Runs, Speaks, Speaks-Preorder, Touches, Touches-Preorder, on_sock-Runs, sendall-Runs,
  aio_roundtrip-Runs,
}
use open_vix_disk_lib.Open.{close_steps, expect_msg}

pub send_nfc_msg-Runs : (t : ℕ) (body : Bytes) → Runs Speaks Any (send_nfc_msg t body)
unfolding send_nfc_msg
send_nfc_msg-Runs t body =
    let pre = Speaks-Preorder in
    Runs-bind pre _ _
      (Runs-raise_if pre (ltb (nfc_msg_size - 4) (length body)) (value_error message_too_large)
        (λ e. cc))
      λ _ _.
        Runs-bind pre {P = Any} _ _ (Runs-lift pre (pack (u32 t ∷ [])) (pack-Yields (u32 t ∷ [])))
          λ head _. sendall-Runs (ljust nfc_msg_size (head ++ body))

recv_nfc_msg-Runs : Runs Speaks Any recv_nfc_msg
unfolding recv_nfc_msg
recv_nfc_msg-Runs =
    let pre = SameOut-Preorder in
    SameOut-Runs _ (
      Runs-bind pre _ _ (recvn-Runs nfc_msg_size) λ frame _.
        Runs-bind pre {P = Any} _ _
          (Runs-lift pre (unpack_from 4 frame 0) (unpack_from-Yields 4 frame 0))
          λ msg_type _. Runs-pure pre _ tt)

pub expect_msg-Runs : (t : ℕ) → Runs Speaks Any (expect_msg t)
unfolding expect_msg
expect_msg-Runs t =
    let pre = Speaks-Preorder in
    Runs-bind pre _ _ recv_nfc_msg-Runs λ reply _.
      Runs-bind pre _ _
        (Runs-raise_if pre (not (reply.0 == t)) (protocol_error (unexpected_message t reply.0))
          (λ e. cc))
        λ _ _. Runs-pure pre reply.1 tt

pub close_steps-Runs : Runs Touches Any close_steps
unfolding close_steps
close_steps-Runs =
    let pre = Touches-Preorder in
    Runs-bind pre _ _ (Runs-gets pre (λ d. d)) λ d _.
      Runs-bind pre {P = Any} _ _
        (Runs-lift pre (pack (u64 d.handle ∷ [])) (pack-Yields (u64 d.handle ∷ [])))
        λ file_body _. Runs-then pre _ _ (aio_roundtrip-Runs AioMsg.close_file file_body [] 0) (
          Runs-bind pre {P = Any} _ _ (Runs-lift pre (pack (u32 0 ∷ [])) (pack-Yields (u32 0 ∷ [])))
            λ session_body _.
              Runs-then pre _ _ (aio_roundtrip-Runs AioMsg.close_session session_body [] 0)
                (on_sock-Runs _ (send_nfc_msg-Runs NfcMsg.session_complete [])))
