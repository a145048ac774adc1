-- ===== src/Session/Login.antt =====
-- The VIM session and the socket of `authenticate` and of `NfcAuthSession.close`
-- (openvixdisklib/nfc_auth.py).
use open_vix_disk_lib.Prelude.{ℕ, ◌≡◌, refl, ◌⊎◌, inl, inr, true, Bool, Option, none}
use open_vix_disk_lib.Exec.{Exec, ◌>>=◌}
use open_vix_disk_lib.Text.{Text}
use open_vix_disk_lib.World.{World, Env, disconnect_session, close_conn}
use open_vix_disk_lib.World.Flags.{Resource, socket, session, is_held, Safe}
use open_vix_disk_lib.World.Actions.{disconnect-Releases, close_conn-Releases}
use open_vix_disk_lib.World.Several.{
  AcquiresAll, AcquiresAll-guarded, DropsAll, Safe-dropped_all, HandsAll-after, HandsAll-make,
}
use open_vix_disk_lib.Authd.Leaks.{connect_authd-Acquires}
use open_vix_disk_lib.Vim.Leaks.{connect_vim-Acquires, get_nfc_ticket-Safe}
use open_vix_disk_lib.Session.{NfcAuthSession, close_session, with_session, authenticate}

-- What an authenticated session holds.
abbrev pub SessionHolds : NfcAuthSession → Resource → Type 0
SessionHolds s r = (r ≡ session s.si) ⊎ (r ≡ socket s.authd_sock)

module _ (env : Env) where
  pub authenticate-AcquiresAll :
      (host username password vm_moref : Text) (port : ℕ) (thumbprint : Option Text)
      (allow_untrusted : Bool) (disk_device_key : Option ℕ) (disk_path : Option Text)
      (read_only nfc_ssl : Bool)
      → AcquiresAll SessionHolds (
          authenticate env host username password vm_moref port thumbprint allow_untrusted
            disk_device_key disk_path read_only nfc_ssl)
  unfolding authenticate
  authenticate-AcquiresAll host username password vm_moref port thumbprint allow_untrusted
        disk_device_key disk_path read_only nfc_ssl =
      AcquiresAll-guarded session SessionHolds disconnect_session _ _
        (connect_vim-Acquires env host username password port thumbprint allow_untrusted)
        disconnect-Releases
        λ si.
          HandsAll-after (session si) SessionHolds _ _
            (get_nfc_ticket-Safe env vm_moref disk_device_key none read_only disk_path)
            λ ticket.
              HandsAll-make (session si) socket SessionHolds _
                (λ authd_sock. record {
                  si = si;
                  ticket = ticket;
                  authd_sock = authd_sock;
                  nfc_ssl = nfc_ssl;
                })
                (connect_authd-Acquires env ticket allow_untrusted nfc_ssl) (λ k. inl refl)
                (λ k. inr refl)

pub close_session-Releases :
    (s : NfcAuthSession) (w : World) (r : Resource)
    → is_held (close_session s w).1 r ≡ true
    → (is_held w r ≡ true) × ¬ SessionHolds s r
unfolding close_session
close_session-Releases s w r h =
    let (h1, o1) = disconnect-Releases s.si (close_conn s.authd_sock w) r h in
    let (h2, o2) = close_conn-Releases s.authd_sock w r h1 in
    (h2, λ mine. elim mine [ inl e ↦ o1 e | inr e ↦ o2 e ])

module _ {A : Type 0} (env : Env) where
  with_session-DropsAll :
      (s : NfcAuthSession) (body : NfcAuthSession → Exec World A)
      → Safe (body s)
      → DropsAll (SessionHolds s) (with_session s body)
  unfolding with_session
  with_session-DropsAll s body kb = record {
    at = λ w r h.
        let (held, other) = close_session-Releases s (body s w).1 r h in (kb.at w r held, other);
  }

  -- If the body of the `with` statement leaves nothing open that was not open before, for any
  -- session, then so does `authenticate` followed by that statement on the session that it returns,
  -- whether the login, the ticket or authd fails, or the body returns or raises.
  pub with_session-Safe :
      (host username password vm_moref : Text) (port : ℕ) (thumbprint : Option Text)
      (allow_untrusted : Bool) (disk_device_key : Option ℕ) (disk_path : Option Text)
      (read_only nfc_ssl : Bool) (body : NfcAuthSession → Exec World A)
      → ((s : NfcAuthSession) → Safe (body s))
      → Safe (
          authenticate env host username password vm_moref port thumbprint allow_untrusted
            disk_device_key disk_path read_only nfc_ssl
          >>= λ s. with_session s body)
  with_session-Safe host username password vm_moref port thumbprint allow_untrusted disk_device_key
        disk_path read_only nfc_ssl body kb =
      Safe-dropped_all SessionHolds _ _
        (authenticate-AcquiresAll env host username password vm_moref port thumbprint
          allow_untrusted disk_device_key disk_path read_only nfc_ssl)
        (λ s. with_session-DropsAll s body (kb s))
