-- ===== src/Authd/Leaks.antt =====
-- The sockets of `connect_authd` (openvixdisklib/nfc_auth.py).
use open_vix_disk_lib.Prelude.{
  ℕ, zero, suc, ◌≡◌, refl, ◌∙◌, Bool, true, false, [], ◌++◌, length, ltb, ◌==◌, if◌then◌else◌, not,
  ◌&&◌,
}
use open_vix_disk_lib.Error.{Result, ok, err, connection_error, authd_closed, oversized_response}
use open_vix_disk_lib.Exec.{proceed, done}
use open_vix_disk_lib.Exec.Leaves.{Leaves, leaves_rules}
use open_vix_disk_lib.Struct.{Bytes}
use open_vix_disk_lib.Text.{Text}
use open_vix_disk_lib.Conn.{Conn, recv, sendall}
use open_vix_disk_lib.Conn.Ends.{recv-SameOut}
use open_vix_disk_lib.Conn.Send.{sendall-SendEnds}
use open_vix_disk_lib.World.{is_set, or_default, Env, Ticket, close_conn}
use open_vix_disk_lib.World.Flags.{
  socket, Safe, Acquires, Hands, Acquires-guarded, Hands-after, Hands-pure, Safe-raise_if, Safe-if,
  Safe-asked, Safe-pure,
}
use open_vix_disk_lib.World.Actions.{
  close_conn-Releases, new_conn-Acquires, on_conn-Safe, Hands-swap,
}
use open_vix_disk_lib.Authd.{
  max_line, ends_line, read_until_eol, readline, send_text, expect_line, authd_commands,
  wrap_socket, open_tls, check_peer, check_thumbprint, connect_authd,
}

abbrev conn_open : Conn → Bool
conn_open c = c.is_open

open_if :
    (b v : Bool) (x y : Result Bytes × Conn)
    → conn_open x.1 ≡ v
    → conn_open y.1 ≡ v
    → conn_open (if b then x else y).1 ≡ v
open_if true v x y p q = p
open_if false v x y p q = q

-- What a round does with what `recv` returned.
read_more :
    (fuel : ℕ) (buf : Bytes)
    → ((buf' : Bytes) → Leaves conn_open (read_until_eol fuel buf'))
    → (x : Result Bytes) (c : Conn)
    → conn_open
        (proceed
          (x, c)
          (λ chunk c'.
            let rest = read_until_eol fuel (buf ++ chunk) c' in
            if length chunk == 0
            then (err (connection_error authd_closed), c')
            else if ltb max_line (length (buf ++ chunk))
            then (err (connection_error oversized_response), c')
            else rest)).1
      ≡ c.is_open
read_more fuel buf ih (err e) c = refl
read_more fuel buf ih (ok chunk) c =
    open_if (length chunk == 0) c.is_open _ _ refl
      (open_if (ltb max_line (length (buf ++ chunk))) c.is_open _ _ refl ((ih (buf ++ chunk)).at c))

read_until_eol-Leaves : (fuel : ℕ) (buf : Bytes) → Leaves conn_open (read_until_eol fuel buf)
unfolding read_until_eol
read_until_eol-Leaves zero buf = record {
  at = λ c. open_if (ends_line buf) c.is_open _ _ refl refl;
}
read_until_eol-Leaves (suc fuel) buf = record {
  at = λ c. open_if (ends_line buf) c.is_open _ _ refl (
      read_more fuel buf (read_until_eol-Leaves fuel) (recv 1 c).0 (recv 1 c).1
      ∙ (recv-SameOut 1 c).is_open);
}

readline-Leaves : Leaves conn_open readline
unfolding readline
readline-Leaves = search (leaves_rules, read_until_eol-Leaves)

sendall-Leaves : (bs : Bytes) → Leaves conn_open (sendall bs)
sendall-Leaves bs = record { at = λ c. (sendall-SendEnds bs c).is_open }

send_text-Leaves : (line : Text) → Leaves conn_open (send_text line)
unfolding send_text
send_text-Leaves line = search (leaves_rules, sendall-Leaves)

expect_line-Leaves : (code what : Text) → Leaves conn_open (expect_line code what)
unfolding expect_line
expect_line-Leaves code what = search (leaves_rules, readline-Leaves)

authd_commands-Leaves :
    (ticket : Ticket) (nfc_ssl : Bool) → Leaves conn_open (authd_commands ticket nfc_ssl)
unfolding authd_commands
authd_commands-Leaves ticket nfc_ssl =
    search (leaves_rules, send_text-Leaves, expect_line-Leaves) depth 30

module _ (env : Env) where
  -- The TLS socket takes the place of the plain one.
  pub wrap_socket-Hands :
      (raw : ℕ) (host : Text) → Hands (socket raw) socket (wrap_socket env raw host)
  unfolding wrap_socket
  wrap_socket-Hands raw host =
      Hands-swap (socket raw) socket (close_conn raw) _ (close_conn-Releases raw)
        (new_conn-Acquires (λ w. env.wrap_socket w (w.conns raw) host))

  open_tls-Acquires : (ticket : Ticket) → Acquires socket (open_tls env ticket)
  unfolding open_tls
  open_tls-Acquires ticket =
      Acquires-guarded socket socket close_conn _ _ (new_conn-Acquires _) close_conn-Releases λ raw.
        Hands-after (socket raw) socket _ _ (on_conn-Safe raw readline readline-Leaves) λ banner.
          Hands-after (socket raw) socket _ _ (Safe-raise_if _ _)
            λ _. wrap_socket-Hands raw ticket.host

  check_peer-Safe :
      (ticket : Ticket) (allow_untrusted : Bool) (ssock : ℕ)
      → Safe (check_peer env ticket allow_untrusted ssock)
  unfolding check_peer
  check_peer-Safe ticket allow_untrusted ssock =
      Safe-if (not allow_untrusted && is_set ticket.ssl_thumbprint)
        (λ w. (
          check_thumbprint env.sha1 (env.peer_certificate w (w.conns ssock))
              (or_default [] ticket.ssl_thumbprint),
          w,
        ))
        done (Safe-asked _) (Safe-pure tt)

  -- Whatever authd, the network and the TLS library do: if `connect_authd` raises, nothing is open
  -- that was not open before; if it returns, the socket that it returns is all that is new.
  pub connect_authd-Acquires :
      (ticket : Ticket) (allow_untrusted nfc_ssl : Bool)
      → Acquires socket (connect_authd env ticket allow_untrusted nfc_ssl)
  unfolding connect_authd
  connect_authd-Acquires ticket allow_untrusted nfc_ssl =
      Acquires-guarded socket socket close_conn _ _ (open_tls-Acquires ticket) close_conn-Releases
        λ ssock.
          Hands-after (socket ssock) socket _ _ (check_peer-Safe ticket allow_untrusted ssock) λ _.
            Hands-after (socket ssock) socket _ _
              (on_conn-Safe ssock _ (authd_commands-Leaves ticket nfc_ssl))
              λ _. Hands-pure (socket ssock) socket ssock refl
