-- ===== src/Authd/Connected.antt =====
-- `connect_authd` (openvixdisklib/nfc_auth.py) with a daemon that accepts the client.
use open_vix_disk_lib.Prelude.{
  ℕ, ◌+◌, ◌≡◌, ◌≢◌, none, some, refl, ◌∙◌, ◌⊎◌, inl, inr, Bool, true, false, codes, List, [], ◌∷◌,
  ◌++◌, arith, ◌==◌, if◌then◌else◌,
}
use open_vix_disk_lib.Error.{ok}
use open_vix_disk_lib.Struct.{Bytes}
use open_vix_disk_lib.Text.{Text, encode_ascii}
use open_vix_disk_lib.Conn.{Arrival, Conn}
use open_vix_disk_lib.Conn.Receive.{Delivers}
use open_vix_disk_lib.Conn.Send.{CanSend}
use open_vix_disk_lib.World.{World, Env, Ticket, put_conn, close_conn}
use open_vix_disk_lib.World.Conns.{
  with_conn, new_conn_lem, on_conn_lem, put_conn-same, conns-close_conn, close_conn-closed,
}
use open_vix_disk_lib.Authd.{
  authd_default_port, readline, wrap_socket, open_tls, check_peer, authd_commands, connect_authd,
}
use open_vix_disk_lib.Authd.Pinned.{Spells, halves, check_thumbprint-Spells}
use open_vix_disk_lib.Authd.Accepted.{
  Answer, answer, readline_lem, session_line, proxy_line, commands, authd_commands_lem,
}

-- The port that a ticket stands for.
abbrev pub port_of : Ticket → ℕ
port_of ticket = if ticket.port == 0 then authd_default_port else ticket.port

-- The host takes the connection, and the TLS handshake over it gives `tls`.
pub record Reaches (env : Env) (ticket : Ticket) (w : World) (raw tls : Conn) : Type 0 where
  pub connects : env.create_connection w ticket.host (port_of ticket) ≡ ok raw
  pub wraps : (v : World) (c : Conn) → env.wrap_socket v c ticket.host ≡ ok tls

-- The certificate need not be checked, since the caller allows any or the ticket names none, or the text
-- in the ticket spells the SHA-1 digest of the certificate that the peer sent.
abbrev pub IsTrusted : Env → Ticket → Bool → Type 0
IsTrusted env ticket allow_untrusted =
    (allow_untrusted ≡ true)
    ⊎ (ticket.ssl_thumbprint ≡ none)
    ⊎ (ticket.ssl_thumbprint ≡ some [])
    ⊎ ((t : Text) × (ticket.ssl_thumbprint ≡ some t)
        × ((v : World) (c : Conn)
            → (env.peer_certificate v c ≢ [])
              × Spells t (halves (env.sha1 (env.peer_certificate v c)))))

module _ (env : Env) (ticket : Ticket) where
  check_peer_lem :
      (allow_untrusted : Bool) (ssock : ℕ) (w : World)
      → IsTrusted env ticket allow_untrusted
      → check_peer env ticket allow_untrusted ssock w ≡ (ok tt, w)
  unfolding check_peer
  check_peer_lem allow_untrusted ssock w (inl any) = rw any refl
  check_peer_lem true ssock w (inr trusted) = refl
  check_peer_lem false ssock w (inr (inl none_named)) = rw none_named refl
  check_peer_lem false ssock w (inr (inr (inl empty))) = rw empty refl
  check_peer_lem false ssock w (inr (inr (inr ([], named, spelt)))) = rw named refl
  check_peer_lem false ssock w (inr (inr (inr (b ∷ t, named, spelt)))) =
      let (some_, spells) = spelt w (w.conns ssock) in
      let cert : Bytes = env.peer_certificate w (w.conns ssock) in
      rw (named, check_thumbprint-Spells env.sha1 cert (b ∷ t) some_ spells) refl

  -- The world after the banner was read, with the TLS socket, and without the plain one.
  abbrev greeted : World → Conn → List Arrival → World
  greeted w raw rest = put_conn w.next_conn (record raw { incoming = rest }) (with_conn raw w)

  abbrev wrapped : World → Conn → List Arrival → Conn → World
  wrapped w raw rest tls = close_conn w.next_conn (with_conn tls (greeted w raw rest))

  open_tls_lem :
      (w : World) (raw tls : Conn) (banner : Answer (codes "220")) (ys : Bytes)
      → Reaches env ticket w raw tls
      → raw.is_open ≡ true
      → Delivers raw.incoming (banner.line ++ (10 ∷ ys))
      → (rest : List Arrival) × (open_tls env ticket w
          ≡ (ok (w.next_conn + 1), wrapped w raw rest tls))
        × Delivers rest ys
  unfolding open_tls wrap_socket
  open_tls_lem w raw tls banner ys reach o del =
      let (rest, e, del') = readline_lem banner ys raw o del in
      let made =
        new_conn_lem (λ v. env.create_connection v ticket.host (port_of ticket)) w raw
          reach.connects in
      let w1 : World = with_conn raw w in
      let read =
        on_conn_lem w.next_conn readline w1 raw (ok (answer banner))
          (record raw { incoming = rest }) (put_conn-same w.next_conn raw w) e in
      let w2 : World = greeted w raw rest in
      let tls_made =
        new_conn_lem (λ v. env.wrap_socket v (v.conns w.next_conn) ticket.host) w2 tls
          (reach.wraps w2 (w2.conns w.next_conn)) in
      (rest, rw (made, read, banner.accepted, tls_made) refl, del')

  tls_conn :
      (w : World) (raw tls : Conn) (rest : List Arrival)
      → (wrapped w raw rest tls).conns (w.next_conn + 1) ≡ tls
  tls_conn w raw tls rest =
      let other : (w.next_conn + 1 == w.next_conn) ≡ false = ground arith in
      conns-close_conn w.next_conn (w.next_conn + 1) (with_conn tls (greeted w raw rest)) other
      ∙ put_conn-same (w.next_conn + 1) tls (greeted w raw rest)

  -- If the host takes the connection and sends a banner that begins with 220, the TLS handshake
  -- succeeds, the certificate is trusted (the caller allows any, the ticket names none, or the text
  -- in the ticket spells the SHA-1 digest of the certificate that the peer sent in hexadecimal
  -- digits of either case, with colons and spaces anywhere), the command lines can be encoded, and
  -- authd answers BANNER, THUMBPRINT_SHA2 and PROXY over an open socket that can send with lines
  -- that begin with 220, 200 and 200, each line shorter than 4096 bytes and all cut into any
  -- nonempty pieces, then `connect_authd` returns the TLS socket, the plain one is detached, the
  -- four commands went out over TLS in their order, and no byte behind the line feed of the last
  -- answer is read, so that the bytes of the NFC protocol are left on the socket.
  pub connect_authd_connects :
      (allow_untrusted nfc_ssl : Bool) (session_b proxy_b : Bytes) (w : World) (raw tls : Conn)
      (banner first : Answer (codes "220")) (sha2 proxy : Answer (codes "200")) (ys zs : Bytes)
      → Reaches env ticket w raw tls
      → raw.is_open ≡ true
      → Delivers raw.incoming (banner.line ++ (10 ∷ zs))
      → IsTrusted env ticket allow_untrusted
      → encode_ascii (session_line ticket) ≡ ok session_b
      → encode_ascii (proxy_line ticket nfc_ssl) ≡ ok proxy_b
      → CanSend tls
      → Delivers tls.incoming (first.line ++ (10 ∷ (sha2.line ++ (10 ∷ (proxy.line ++ (10 ∷ ys))))))
      → (v : World) × (rest : List Arrival) × (connect_authd env ticket allow_untrusted nfc_ssl w
          ≡ (ok (w.next_conn + 1), v))
        × (v.conns (w.next_conn + 1)
            ≡ record tls { incoming = rest; sent = tls.sent ++ commands session_b proxy_b })
        × ((v.conns w.next_conn).is_open ≡ false)
        × Delivers rest ys
  unfolding connect_authd
  connect_authd_connects allow_untrusted nfc_ssl session_b proxy_b w raw tls banner first sha2 proxy
        ys zs reach o del trusted es ep can del' =
      let n : ℕ = w.next_conn + 1 in
      let (r0, e0, _) = open_tls_lem w raw tls banner zs reach o del in
      let v0 : World = wrapped w raw r0 tls in
      let (rest, e, d) =
        authd_commands_lem ticket nfc_ssl session_b proxy_b first sha2 proxy ys tls es ep can
          del' in
      let tls' : Conn = record tls {
        incoming = rest;
        sent = tls.sent ++ commands session_b proxy_b;
      } in
      let said =
        on_conn_lem n (authd_commands ticket nfc_ssl) v0 tls (ok tt) tls' (tls_conn w raw tls r0)
          e in
      let other : (w.next_conn == n) ≡ false = ground arith in
      (
        put_conn n tls' v0,
        rest,
        rw (e0, check_peer_lem allow_untrusted n v0 trusted, said) refl,
        put_conn-same n tls' v0,
        rw other (close_conn-closed w.next_conn (with_conn tls (greeted w raw r0))),
        d,
      )
