-- ===== src/Session/Takeover.antt =====
-- A take-over of authd's socket (openvixdisklib/nfc_open.py) that stops behind the duplication.
use open_vix_disk_lib.Prelude.{◌≡◌, refl, Bool, true, ◌⊎◌, inl, inr, Bool-cases}
use open_vix_disk_lib.Error.{Error, ok, err}
use open_vix_disk_lib.Conn.{Conn}
use open_vix_disk_lib.Open.{OpenArgs, check_args}
use open_vix_disk_lib.World.{World, Env}
use open_vix_disk_lib.World.Flags.{is_held, socket}
use open_vix_disk_lib.World.Conns.{with_conn, new_conn_lem, put_conn-same}
use open_vix_disk_lib.Session.{
  NfcAuthSession, takeover_authd_socket, wrap_nfcssl_socket, take_socket, open_disk,
}

-- The system does not take the options of the duplicated socket, or it takes them, and for a session over
-- TLS no context can be made.
abbrev pub Refuses : Env → Bool → World → Conn → Error → Type 0
Refuses env nfc_ssl w nfc e =
    (env.set_options w nfc ≡ err e)
    ⊎ ((nfc_ssl ≡ true) × (env.set_options w nfc ≡ ok tt) × (env.client_context w ≡ err e))

module _ (env : Env) (s : NfcAuthSession) (a : OpenArgs) (w : World) (nfc : Conn) (e : Error) where
  take_socket_raises :
      ((c : Conn) → env.dup w c ≡ ok nfc)
      → Refuses env s.nfc_ssl (with_conn nfc w) nfc e
      → take_socket env s w ≡ (err e, with_conn nfc w)
  unfolding take_socket wrap_nfcssl_socket takeover_authd_socket
  take_socket_raises dups (inl fails) =
      let made =
        new_conn_lem (λ w. env.dup w (w.conns s.authd_sock)) w nfc (dups (w.conns s.authd_sock)) in
      elim (Bool-cases s.nfc_ssl) [
        | inl tls ↦ rw (tls, made, put_conn-same w.next_conn nfc w, fails) refl
        | inr plain ↦ rw (plain, made, put_conn-same w.next_conn nfc w, fails) refl
      ]
  take_socket_raises dups (inr (tls, takes, fails)) =
      let made =
        new_conn_lem (λ w. env.dup w (w.conns s.authd_sock)) w nfc (dups (w.conns s.authd_sock)) in
      rw (tls, made, put_conn-same w.next_conn nfc w, takes, fails) refl

  -- If `open_disk` accepts its arguments and the descriptor of authd's socket is duplicated to an
  -- open socket, and then the system does not take the options of that socket, or it takes them and
  -- for a session over TLS no context can be made, then `open_disk` raises that error, closes
  -- nothing, and the duplicate, under a new number, is still open.
  pub open_disk_leaves_open :
      check_args a ≡ ok tt
      → ((c : Conn) → env.dup w c ≡ ok nfc)
      → nfc.is_open ≡ true
      → Refuses env s.nfc_ssl (with_conn nfc w) nfc e
      → (open_disk env s a w ≡ (err e, with_conn nfc w))
        × (is_held (with_conn nfc w) (socket w.next_conn) ≡ true)
  unfolding open_disk
  open_disk_leaves_open checked dups o fails = (
    rw (checked, take_socket_raises dups fails) refl,
    rw (is_held, put_conn-same w.next_conn nfc w) o,
  )
