-- ===== src/Handle/Leaks.antt =====
-- The VIM session of `VixDiskLibHandle.connect` (openvixdisklib/openvixdisklib.py).
use open_vix_disk_lib.Prelude.{ℕ, ◌≡◌, refl, ◌∙◌, Bool, Option, inl, inr}
use open_vix_disk_lib.Error.{Result, ok, err}
use open_vix_disk_lib.Exec.{Exec, ◌>>=◌, pure, proceed, finally}
use open_vix_disk_lib.Text.{Text}
use open_vix_disk_lib.World.{World, Env}
use open_vix_disk_lib.World.Flags.{
  Resource, session, Safe, Drops, Acquires, Gains, Acquires-after, Safe-dropped, Safe-lift,
}
use open_vix_disk_lib.World.Actions.{disconnect-Releases}
use open_vix_disk_lib.Vim.Leaks.{connect_vim-Acquires}
use open_vix_disk_lib.Handle.{
  Connection, disconnect, connect_enter, connect, select_transport, parse_vm_moref,
}

module _ {A : Type 0} where
  -- The session of the result, under a field of a record.
  named :
      (own : A → Resource) (mk : ℕ → A) (same : (k : ℕ) → session k ≡ own (mk k)) (w : World)
      (x : Result ℕ) (w' : World)
      → Gains session w (x, w')
      → Gains own w (proceed (x, w') (λ k. pure (mk k)))
  named own mk same w (ok k) w' g =
      λ r h. elim (g r h) [ inl old ↦ inl old | inr new ↦ inr (new ∙ same k) ]
  named own mk same w (err e) w' g = g

  Acquires-named :
      (own : A → Resource) (m : Exec World ℕ) (mk : ℕ → A)
      → ((k : ℕ) → session k ≡ own (mk k))
      → Acquires session m
      → Acquires own (m >>= λ k. pure (mk k))
  Acquires-named own m mk same km = record {
    at = λ w. named own mk same w (m w).0 (m w).1 (km.at w);
  }

module _ (env : Env) where
  connect_enter-Acquires :
      (server : Text) (thumbprint : Option Text) (username password : Text)
      (vmx_spec snapshot_ref : Option Text) (read_only : Bool) (transport_modes : Option Text)
      (port : ℕ) (allow_untrusted : Bool)
      → Acquires
          (λ conn. session conn.si)
          (connect_enter env server thumbprint username password vmx_spec snapshot_ref read_only
            transport_modes port allow_untrusted)
  unfolding connect_enter
  connect_enter-Acquires server thumbprint username password vmx_spec snapshot_ref read_only
        transport_modes port allow_untrusted =
      Acquires-after (λ conn. session conn.si) _ _ (Safe-lift (select_transport transport_modes))
        λ mode.
          Acquires-after (λ conn. session conn.si) _ _ (Safe-lift (parse_vm_moref vmx_spec))
            λ vm_moref.
              Acquires-named (λ conn. session conn.si) _
                (λ si. record {
                  si = si;
                  vm_moref = vm_moref;
                  snapshot_ref = snapshot_ref;
                  thumbprint = thumbprint;
                  allow_untrusted = allow_untrusted;
                  read_only = read_only;
                  transport_mode = mode;
                })
                (λ k. refl)
                (connect_vim-Acquires env server username password port thumbprint allow_untrusted)

  finally-Drops :
      {A : Type 0} (conn : Connection) (m : Exec World A)
      → Safe m
      → Drops (session conn.si) (finally (disconnect conn) m)
  unfolding disconnect
  finally-Drops conn m km = record {
    at = λ w r h.
        let (held, other) = disconnect-Releases conn.si (m w).1 r h in (km.at w r held, other);
  }

  -- If the body of the `with` statement leaves nothing open that was not open before, for any
  -- connection, then so does `connect` with that body, whether the arguments are refused, the login
  -- fails, or the body returns or raises.
  pub connect-Safe :
      {A : Type 0} (server : Text) (thumbprint : Option Text) (username password : Text)
      (vmx_spec snapshot_ref : Option Text) (read_only : Bool) (transport_modes : Option Text)
      (port : ℕ) (allow_untrusted : Bool) (body : Connection → Exec World A)
      → ((conn : Connection) → Safe (body conn))
      → Safe (
          connect env server thumbprint username password vmx_spec snapshot_ref read_only
            transport_modes port allow_untrusted body)
  unfolding connect
  connect-Safe server thumbprint username password vmx_spec snapshot_ref read_only transport_modes
        port allow_untrusted body kb =
      Safe-dropped (λ conn. session conn.si) _ _
        (connect_enter-Acquires server thumbprint username password vmx_spec snapshot_ref read_only
          transport_modes port allow_untrusted)
        λ conn. finally-Drops conn (body conn) (kb conn)
