-- ===== src/Vim/Leaks.antt =====
-- What `connect_vim`, `get_ssl_cert_thumbprint` and `get_nfc_ticket` (openvixdisklib/nfc_auth.py)
-- open and close.
use open_vix_disk_lib.Prelude.{
  ℕ, ◌≡◌, Bool, true, false, ◌+◌, Option, none, some, [], ◌&&◌, not, if◌then◌else◌, inl, inr,
}
use open_vix_disk_lib.Error.{Result, ok, err}
use open_vix_disk_lib.Exec.{◌>>=◌, ◌>>◌, lift, gets, proceed, modify, clean_up, done}
use open_vix_disk_lib.Text.{Text}
use open_vix_disk_lib.World.{World, Env, close_conn, is_set, or_default}
use open_vix_disk_lib.World.Flags.{
  Resource, socket, disk, session, Safe, Acquires, PassesOn, Releases, Acquires-after, Safe-dropped,
  Safe-if, Safe-pure, Safe-bind, Safe-then, Safe-raise_if, Safe-lift, Safe-asked, is_held,
}
use open_vix_disk_lib.World.Actions.{close_conn-Releases, new_conn-Acquires, new_session-Acquires}
use open_vix_disk_lib.Authd.{wrap_socket}
use open_vix_disk_lib.Authd.Leaks.{wrap_socket-Hands}
use open_vix_disk_lib.Vim.{
  register_nfc_types, get_ssl_cert_thumbprint, check_pin, connect_vim, device_key, host_or_runtime,
  disk_ticket, get_nfc_ticket, is_none, peer_thumbprint,
}

module _ (env : Env) where
  thumbprint_drops :
      (sock : ℕ) (w : World) (x : Result ℕ) (v : World)
      → PassesOn (socket sock) socket w (x, v)
      → Releases
          (socket sock)
          w
          (proceed (clean_up (close_conn sock) (x, v)) (λ ssock.
            gets (λ w'. env.peer_certificate w' (w'.conns ssock)) >>= λ cert.
            modify (close_conn ssock)
            >> modify (close_conn sock)
            >> lift (peer_thumbprint env cert))).1
  thumbprint_drops sock w (ok ssock) v p = λ r h.
      let (h1, o1) = close_conn-Releases sock (close_conn ssock v) r h in
      let (h2, o2) = close_conn-Releases ssock v r h1 in
      elim (p r h2) [ inl (held, same) ↦ (held, o1) | inr mine ↦ absurd (o2 mine) ]
  thumbprint_drops sock w (err e) v p =
      λ r h. let (h1, o1) = close_conn-Releases sock v r h in (p r h1, o1)

  -- Both sockets are closed on every way out.
  thumbprint-Safe : (host : Text) (port : ℕ) → Safe (get_ssl_cert_thumbprint env host port)
  unfolding get_ssl_cert_thumbprint
  thumbprint-Safe host port = Safe-dropped socket _ _ (new_conn-Acquires _) λ sock. record {
    at = λ w.
        thumbprint_drops sock w (wrap_socket env sock host w).0 (wrap_socket env sock host w).1
          ((wrap_socket-Hands env sock host).at w);
  }

  check_pin-Safe : (host : Text) (port : ℕ) (t : Text) → Safe (check_pin env host port t)
  unfolding check_pin
  check_pin-Safe host port t = Safe-bind _ _ (thumbprint-Safe host port) (λ peer. Safe-raise_if _ _)

  -- If `connect_vim` raises, in the pin check too, nothing is open that was not open before; if it
  -- returns, the session that it returns is all that is new.
  pub connect_vim-Acquires :
      (host username password : Text) (port : ℕ) (thumbprint : Option Text) (allow_untrusted : Bool)
      → Acquires session (connect_vim env host username password port thumbprint allow_untrusted)
  unfolding connect_vim
  connect_vim-Acquires host username password port thumbprint allow_untrusted =
      Acquires-after session _ _
        (Safe-if (is_set thumbprint && not allow_untrusted)
          (check_pin env host port (or_default [] thumbprint)) done
          (check_pin-Safe host port (or_default [] thumbprint)) (Safe-pure tt))
        λ _. Acquires-after session _ _ (Safe-lift _) λ versions. new_session-Acquires _

  same_held :
      (a b : Bool) (w : World) (r : Resource)
      → is_held
          (if a
            then w
            else if b
            then record w { types_registered = true }
            else record w { types_registered = true; types_created = w.types_created + 1 })
          r
        ≡ true
      → is_held w r ≡ true
  same_held true b w r h = h
  same_held false true w (socket k) h = h
  same_held false true w (disk k) h = h
  same_held false true w (session k) h = h
  same_held false false w (socket k) h = h
  same_held false false w (disk k) h = h
  same_held false false w (session k) h = h

  register-Safe : Safe (modify (register_nfc_types env))
  unfolding register_nfc_types
  register-Safe = record { at = λ w r h. same_held w.types_registered (env.has_nfc_type w) w r h }

  device_key-Safe :
      (vm : Text) (key : Option ℕ) (path : Option Text) → Safe (device_key env vm key path)
  unfolding device_key
  device_key-Safe vm (some key) path = record { at = λ w r h. h }
  device_key-Safe vm none none = record { at = λ w r h. h }
  device_key-Safe vm none (some path) =
      Safe-bind _ _ (Safe-asked (λ w. env.devices w vm)) (λ devices. Safe-lift _)

  host-Safe : (vm : Text) (host : Option ℕ) → Safe (host_or_runtime env vm host)
  unfolding host_or_runtime
  host-Safe vm (some host) = record { at = λ w r h. h }
  host-Safe vm none = record { at = λ w r h. h }

  disk_ticket-Safe :
      (vm : Text) (key host : ℕ) (read_only : Bool) → Safe (disk_ticket env vm key host read_only)
  unfolding disk_ticket
  disk_ticket-Safe vm key host true = record { at = λ w r h. h }
  disk_ticket-Safe vm key host false = record { at = λ w r h. h }

  -- `get_nfc_ticket` leaves nothing open that was not open before, whether it returns a ticket or
  -- raises, for every choice of its arguments.
  pub get_nfc_ticket-Safe :
      (vm : Text) (key host : Option ℕ) (read_only : Bool) (path : Option Text)
      → Safe (get_nfc_ticket env vm key host read_only path)
  unfolding get_nfc_ticket
  get_nfc_ticket-Safe vm key host read_only path = Safe-then _ _ register-Safe (
      Safe-if (read_only && is_none key && is_none path) (λ w. (env.get_vm_files w vm, w)) _
        (Safe-asked (λ w. env.get_vm_files w vm))
        (Safe-bind _ _ (device_key-Safe vm key path)
          λ k. Safe-bind _ _ (host-Safe vm host) λ h. disk_ticket-Safe vm k h read_only))
