-- ===== src/Session.antt =====
-- `NfcAuthSession` and `authenticate` (openvixdisklib/nfc_auth.py), and `open_disk` with the two ways to
-- take over authd's socket (openvixdisklib/nfc_open.py).
pub mod Leaks
pub mod Takeover
pub mod Login
use open_vix_disk_lib.Prelude.{ℕ, ◌+◌, Bool, Option, none, if◌then◌else◌}
use open_vix_disk_lib.Error.{ok}
use open_vix_disk_lib.Exec.{Exec, ◌>>=◌, ◌>>◌, pure, lift, modify, proceed, on_error, finally}
use open_vix_disk_lib.Text.{Text}
use open_vix_disk_lib.Open.{OpenArgs, check_args, new_disk, open_over}
use open_vix_disk_lib.World.{
  World, Env, Ticket, put_disk, on_disk, new_conn, close_conn, disconnect_session,
}
use open_vix_disk_lib.Authd.{wrap_socket, connect_authd}
use open_vix_disk_lib.Vim.{connect_vim, get_nfc_ticket}

-- `si` and `authd_sock` are the numbers of the session and of the socket.
pub record NfcAuthSession : Type 0 where
  pub si : ℕ
  pub ticket : Ticket
  pub authd_sock : ℕ
  pub nfc_ssl : Bool

-- `NfcAuthSession.close`
unfoldable pub close_session : NfcAuthSession → Exec World (Unit {0})
close_session s = finally (disconnect_session s.si) (modify (close_conn s.authd_sock))

-- `__enter__` and `__exit__`: what `close` raises replaces what the body returned or raised.
unfoldable pub with_session :
    {A : Type 0} → NfcAuthSession → (NfcAuthSession → Exec World A) → Exec World A
unfolding close_session
with_session s body w = let (r, w') = body s w in proceed (close_session s w') (λ _ w''. (r, w''))

-- The socket of an opened disk becomes the disk's.
unfoldable pub new_disk_over : ℕ → OpenArgs → Exec World ℕ
new_disk_over fd a w = (
  ok w.next_disk,
  close_conn fd
      (record (put_disk w.next_disk (new_disk (w.conns fd) a) w) { next_disk = w.next_disk + 1 }),
)

module _ (env : Env) where
  unfoldable pub authenticate :
      Text
      → Text
      → Text
      → Text
      → ℕ
      → Option Text
      → Bool
      → Option ℕ
      → Option Text
      → Bool
      → Bool
      → Exec World NfcAuthSession
  authenticate host username password vm_moref port thumbprint allow_untrusted disk_device_key
        disk_path read_only nfc_ssl =
      do
        si ← connect_vim env host username password port thumbprint allow_untrusted
        on_error (disconnect_session si) (do
          ticket ← get_nfc_ticket env vm_moref disk_device_key none read_only disk_path
          authd_sock ← connect_authd env ticket allow_untrusted nfc_ssl
          pure (record { si = si; ticket = ticket; authd_sock = authd_sock; nfc_ssl = nfc_ssl }))

  -- `takeover_authd_socket`: a socket object of its own on the duplicated descriptor, and then
  -- `settimeout` and `setsockopt`, which may raise, and leave the object open if they do.
  unfoldable pub takeover_authd_socket : ℕ → Exec World ℕ
  takeover_authd_socket fd = do
    raw ← new_conn (λ w. env.dup w (w.conns fd))
    (λ w. (env.set_options w (w.conns raw), w))
    pure raw

  -- `wrap_nfcssl_socket`; the context is made outside the `try`.
  unfoldable pub wrap_nfcssl_socket : ℕ → Text → Exec World ℕ
  unfolding takeover_authd_socket
  wrap_nfcssl_socket fd host = do
    raw ← takeover_authd_socket fd
    (λ w. (env.client_context w, w))
    on_error (close_conn raw) (wrap_socket env raw host)

  unfoldable pub take_socket : NfcAuthSession → Exec World ℕ
  unfolding wrap_nfcssl_socket takeover_authd_socket
  take_socket s =
      if s.nfc_ssl
      then wrap_nfcssl_socket s.authd_sock s.ticket.host
      else takeover_authd_socket s.authd_sock

  unfoldable pub open_disk : NfcAuthSession → OpenArgs → Exec World ℕ
  open_disk s a = do
    lift (check_args a)
    sock ← take_socket s
    i ← new_disk_over sock a
    on_disk i (open_over a)
    pure i
