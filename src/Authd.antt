-- ===== src/Authd.antt =====
-- The handshake with the ESXi authd daemon (openvixdisklib/nfc_auth.py): `_readline`, `_expect_code`,
-- `nfcssl_service_name`, `connect_authd`.
pub mod Leaks
pub mod Lines
pub mod Service
pub mod Delivered
pub mod Accepted
pub mod Pinned
pub mod Connected
use open_vix_disk_lib.Prelude.{
  ℕ, zero, suc, ◌+◌, Bool, true, false, ◌&&◌, not, String, codes, Option, none, some, List, [], ◌∷◌,
  ◌++◌, ltb, ◌==◌, length, drop, text_eq, if◌then◌else◌,
}
use open_vix_disk_lib.Error.{
  Result, ok, err, connection_error, out_of_fuel, authd_closed, oversized_response,
  unexpected_banner, command_failed, no_peer_certificate, thumbprint_mismatch,
}
use open_vix_disk_lib.Exec.{
  Exec, ◌>>=◌, ◌>>◌, pure, raise, lift, gets, proceed, modify, done, raise_if, on_error, clean_up,
}
use open_vix_disk_lib.Struct.{Bytes}
use open_vix_disk_lib.Text.{
  Text, encode_ascii, decode_ascii, starts_with, ends_with, lstrip, rstrip_eol,
}
use open_vix_disk_lib.Conn.{Conn, recv, sendall}
use open_vix_disk_lib.Thumbprint.{sha1_thumbprint, normalize_thumbprint}
use open_vix_disk_lib.World.{World, Env, Ticket, or_default, is_set, on_conn, new_conn, close_conn}

abbrev pub authd_default_port : ℕ
authd_default_port = 902

abbrev pub max_line : ℕ
max_line = 4096

-- `buf.endswith(b"\n")`
abbrev pub ends_line : Bytes → Bool
ends_line buf = ends_with buf (10 ∷ [])

-- The loop of `_readline`. A round receives a byte, so `max_line + 1` rounds are enough.
unfoldable pub read_until_eol : ℕ → Bytes → Exec Conn Bytes
read_until_eol zero buf c = if ends_line buf then (ok buf, c) else (err out_of_fuel, c)
read_until_eol (suc fuel) buf c =
    let more = proceed (recv 1 c) (λ chunk c'.
      let rest = read_until_eol fuel (buf ++ chunk) c' in
      if length chunk == 0
      then (err (connection_error authd_closed), c')
      else if ltb max_line (length (buf ++ chunk))
      then (err (connection_error oversized_response), c')
      else rest) in
    if ends_line buf then (ok buf, c) else more

unfoldable pub readline : Exec Conn Text
readline = do buf ← read_until_eol (max_line + 1) []; pure (rstrip_eol (decode_ascii buf))

unfoldable pub expect_code : Text → Text → Text → Result Text
expect_code line code what =
    if not (starts_with line code)
    then err (connection_error (command_failed what line))
    else ok (lstrip (drop (length code) line))

unfoldable pub nfcssl_service_name : Text → Text
nfcssl_service_name service =
    if ends_with service (codes "ssl") then service else service ++ codes "ssl"

abbrev pub crlf : Text
crlf = 13 ∷ 10 ∷ []

-- A command line, and its answer.
unfoldable pub send_text : Text → Exec Conn (Unit {0})
send_text line = do bs ← lift (encode_ascii line); sendall bs

unfoldable pub expect_line : Text → Text → Exec Conn Text
unfolding expect_code
expect_line code what = do line ← readline; lift (expect_code line code what)

-- The service of the `PROXY` command.
unfoldable pub proxy_service : Ticket → Bool → Text
unfolding nfcssl_service_name
proxy_service ticket nfc_ssl =
    let service = or_default (codes "vpxa-nfc") ticket.service in
    if nfc_ssl then nfcssl_service_name service else service

-- From `SESSION` to `PROXY`.
unfoldable pub authd_commands : Ticket → Bool → Exec Conn (Unit {0})
unfolding send_text expect_line proxy_service
authd_commands ticket nfc_ssl = do
  send_text (codes "SESSION " ++ (ticket.session_id ++ crlf))
  send_text (codes "BANNER " ++ crlf)
  expect_line (codes "220") (codes "BANNER")
  send_text (codes "THUMBPRINT_SHA2 PlainText" ++ crlf)
  expect_line (codes "200") (codes "THUMBPRINT_SHA2")
  send_text (codes "PROXY " ++ (proxy_service ticket nfc_ssl ++ crlf))
  expect_line (codes "200") (codes "PROXY")
  pure tt

-- `if not der_cert: raise`, and the comparison with the thumbprint of the ticket.
unfoldable pub check_thumbprint : (Bytes → Bytes) → Bytes → Text → Result (Unit {0})
check_thumbprint sha1 [] expected = err (connection_error no_peer_certificate)
check_thumbprint sha1 (b ∷ bs) expected =
    let peer = sha1_thumbprint sha1 (b ∷ bs) in
    if text_eq (normalize_thumbprint peer) (normalize_thumbprint expected)
    then ok tt
    else err (connection_error (thumbprint_mismatch peer expected))

module _ (env : Env) where
  -- `ssl_context.wrap_socket(raw, server_hostname=host)`: on success the old object is detached from
  -- the connection, and the new one has it.
  unfoldable pub wrap_socket : ℕ → Text → Exec World ℕ
  wrap_socket raw host = do
    ssock ← new_conn (λ w. env.wrap_socket w (w.conns raw) host)
    modify (close_conn raw)
    pure ssock

  -- Up to the TLS session: the banner is read in plain text.
  unfoldable pub open_tls : Ticket → Exec World ℕ
  unfolding wrap_socket
  open_tls ticket = do
    let port = if ticket.port == 0 then authd_default_port else ticket.port
    raw ← new_conn (λ w. env.create_connection w ticket.host port)
    on_error (close_conn raw) (do
      banner ← on_conn raw readline
      raise_if (not (starts_with banner (codes "220")))
          (connection_error (unexpected_banner banner))
      wrap_socket raw ticket.host)

  unfoldable pub check_peer : Ticket → Bool → ℕ → Exec World (Unit {0})
  check_peer ticket allow_untrusted ssock =
      if not allow_untrusted && is_set ticket.ssl_thumbprint
      then (λ w. (
        check_thumbprint env.sha1 (env.peer_certificate w (w.conns ssock))
            (or_default [] ticket.ssl_thumbprint),
        w,
      ))
      else done

  -- The socket, with authd's service behind it.
  unfoldable pub connect_authd : Ticket → Bool → Bool → Exec World ℕ
  connect_authd ticket allow_untrusted nfc_ssl = do
    ssock ← open_tls ticket
    on_error (close_conn ssock) (do
      check_peer ticket allow_untrusted ssock
      on_conn ssock (authd_commands ticket nfc_ssl)
      pure ssock)
