-- ===== src/Handle/Holding.antt =====
-- The disk and the sockets of `VixDiskLibHandle.open` and `close` (openvixdisklib/openvixdisklib.py).
use open_vix_disk_lib.Prelude.{
  ℕ, ◌≡◌, refl, ap, ◌∙◌, inl, inr, true, false, not, ◌&&◌, none, some, codes, text_eq, ==_refl,
  if◌then◌else◌,
}
use open_vix_disk_lib.Error.{Result, ok, err, not_implemented, read_only_connection}
use open_vix_disk_lib.Exec.{Exec, ◌>>=◌, pure, lift, raise_if, proceed, on_error, clean_up}
use open_vix_disk_lib.Text.{Text}
use open_vix_disk_lib.Aio.{NfcDisk}
use open_vix_disk_lib.Open.{OpenArgs, check_args, new_disk, open_over}
use open_vix_disk_lib.Open.Cleanup.{disk_closed}
use open_vix_disk_lib.Open.Marks.{open_over-closed}
use open_vix_disk_lib.World.{World, Env, Ticket, put_disk, on_disk, close_conn}
use open_vix_disk_lib.World.Flags.{
  Resource, socket, disk, is_held, OpensNothing, Safe, Safe-lift, Safe-raise_if,
}
use open_vix_disk_lib.World.Actions.{close_conn-Releases}
use open_vix_disk_lib.World.Several.{
  AcquiresAll, AcquiresAll-after, AcquiresAll-guarded, HandsAll-make, GainsAll,
}
use open_vix_disk_lib.Authd.{connect_authd}
use open_vix_disk_lib.Authd.Leaks.{connect_authd-Acquires}
use open_vix_disk_lib.Vim.{get_nfc_ticket}
use open_vix_disk_lib.Vim.Leaks.{get_nfc_ticket-Safe}
use open_vix_disk_lib.Session.{NfcAuthSession, take_socket, new_disk_over, open_disk}
use open_vix_disk_lib.Session.Leaks.{TakesOptions, open_disk-Acquires}
use open_vix_disk_lib.Handle.{
  Connection, DiskHandle, nfc_compression, is_read_only, open_args, open_enter, close_after,
  open_handle,
}
use open_vix_disk_lib.Handle.Closing.{HandleHolds, IsSound, close-Releases, close_world}

-- A world and a result in which a new disk is not marked as closed.
abbrev Fresh : {A : Type 0} → (A → ℕ) → Result A × World → Type 0
Fresh i (ok a, w) = (w.disks (i a)).closed ≡ false
Fresh i (err e, w) = Unit {0}

module _ {A B : Type 0} where
  bind-Fresh :
      (i : B → ℕ) (f : A → Exec World B) (kf : (a : A) (w : World) → Fresh i (f a w)) (x : Result A)
      (w : World)
      → Fresh i (proceed (x, w) f)
  bind-Fresh i f kf (ok a) w = kf a w
  bind-Fresh i f kf (err e) w = tt

  make-Fresh :
      (i : A → ℕ) (j : B → ℕ) (mk : A → B)
      → ((a : A) → j (mk a) ≡ i a)
      → (x : Result A) (w : World) → Fresh i (x, w)
      → Fresh j (proceed (x, w) (λ a. pure (mk a)))
  make-Fresh i j mk same (ok a) w k = rw (same a) k
  make-Fresh i j mk same (err e) w k = tt

guard-Fresh :
    {A : Type 0} (i : A → ℕ) (cleanup : World → World) (x : Result A) (w : World)
    → Fresh i (x, w)
    → Fresh i (clean_up cleanup (x, w))
guard-Fresh i cleanup (ok a) w k = k
guard-Fresh i cleanup (err e) w k = tt

put_disk-same : (i : ℕ) (d : NfcDisk) (w : World) → (put_disk i d w).disks i ≡ d
put_disk-same i d w = rw (==_refl i) refl

opened-Fresh :
    (i : ℕ) (x : Result (Unit {0})) (d : NfcDisk) (w : World)
    → disk_closed d ≡ false
    → Fresh (λ j. j) (proceed (x, put_disk i d w) (λ _. pure i))
opened-Fresh i (ok u) d w h = rw (put_disk-same i d w) h
opened-Fresh i (err e) d w h = tt

over-closed :
    (sock : ℕ) (a : OpenArgs) (w : World)
    → disk_closed ((new_disk_over sock a w).1.disks w.next_disk) ≡ false
unfolding new_disk_over close_conn
over-closed sock a w = ap disk_closed (put_disk-same w.next_disk (new_disk (w.conns sock) a) w)

module _ (env : Env) where
  open_disk-Fresh :
      (s : NfcAuthSession) (a : OpenArgs) (w : World) → Fresh (λ j. j) (open_disk env s a w)
  unfolding open_disk new_disk_over on_disk
  open_disk-Fresh s a w =
      bind-Fresh (λ j. j) _
        (λ _ w'.
          bind-Fresh (λ j. j) _
            (λ sock v.
              let v1 : World = (new_disk_over sock a v).1 in
              let r = open_over a (v1.disks v.next_disk) in
              opened-Fresh v.next_disk r.0 r.1 v1
                ((open_over-closed a).at (v1.disks v.next_disk) ∙ over-closed sock a v))
            (take_socket env s w').0 (take_socket env s w').1)
        (check_args a) w

  module _ (takes : TakesOptions env) (conn : Connection) (disk_path : Text)
      (flags buffer_size buffer_count : ℕ) where
    abbrev session_of : Ticket → ℕ → NfcAuthSession
    session_of ticket authd_sock = record {
      si = conn.si;
      ticket = ticket;
      authd_sock = authd_sock;
      nfc_ssl = text_eq conn.transport_mode (codes "nbdssl");
    }

    abbrev handle_of : ℕ → ℕ → DiskHandle
    handle_of authd_sock i = record {
      disk = i;
      authd_sock = authd_sock;
      transport_mode = conn.transport_mode;
    }

    open_enter-AcquiresAll :
        AcquiresAll HandleHolds (open_enter env conn disk_path flags buffer_size buffer_count)
    unfolding open_enter
    open_enter-AcquiresAll =
        AcquiresAll-after HandleHolds _ _ (Safe-lift (nfc_compression flags)) λ compression.
          AcquiresAll-after HandleHolds _ _
            (Safe-raise_if (not (is_read_only flags) && conn.read_only)
              (not_implemented read_only_connection))
            λ _.
              AcquiresAll-after HandleHolds _ _
                (get_nfc_ticket-Safe env conn.vm_moref none none (is_read_only flags)
                  (if is_read_only flags then none else some disk_path))
                λ ticket.
                  AcquiresAll-guarded socket HandleHolds close_conn _ _
                    (connect_authd-Acquires env ticket conn.allow_untrusted
                      (text_eq conn.transport_mode (codes "nbdssl")))
                    close_conn-Releases
                    λ authd_sock.
                      HandsAll-make (socket authd_sock) disk HandleHolds _ (handle_of authd_sock)
                        (open_disk-Acquires env takes (session_of ticket authd_sock) (
                          open_args disk_path (is_read_only flags) compression buffer_size
                            buffer_count))
                        (λ i. inr refl) (λ i. inl refl)

    open_enter-Fresh :
        (w : World)
        → Fresh (λ h. h.disk) (open_enter env conn disk_path flags buffer_size buffer_count w)
    unfolding open_enter
    open_enter-Fresh w =
        step (lift (nfc_compression flags)) _
          (λ compression.
            step
              (raise_if (not (is_read_only flags) && conn.read_only)
                (not_implemented read_only_connection))
              _
              (λ _.
                step
                  (get_nfc_ticket env conn.vm_moref none none (is_read_only flags)
                    (if is_read_only flags then none else some disk_path))
                  _
                  (λ ticket.
                    step
                      (connect_authd env ticket conn.allow_untrusted
                        (text_eq conn.transport_mode (codes "nbdssl")))
                      _ (λ authd_sock v. opened ticket authd_sock compression v))))
          w
      where
        step :
            {A : Type 0} (m : Exec World A) (f : A → Exec World DiskHandle)
            → ((a : A) (v : World) → Fresh (λ h. h.disk) (f a v))
            → (v : World) → Fresh (λ h. h.disk) ((m >>= f) v)
        step m f kf v = bind-Fresh (λ h. h.disk) f kf (m v).0 (m v).1

        opened :
            (ticket : Ticket) (authd_sock compression : ℕ) (v : World)
            → Fresh
                (λ h. h.disk)
                (on_error
                  (close_conn authd_sock)
                  (open_disk env (session_of ticket authd_sock) (
                      open_args disk_path (is_read_only flags) compression buffer_size buffer_count)
                    >>= λ i. pure (handle_of authd_sock i))
                  v)
        opened ticket authd_sock compression v =
            let a : OpenArgs =
              open_args disk_path (is_read_only flags) compression buffer_size buffer_count in
            let m : Exec World ℕ = open_disk env (session_of ticket authd_sock) a in
            let n : Exec World DiskHandle = m >>= λ i. pure (handle_of authd_sock i) in
            guard-Fresh (λ h. h.disk) (close_conn authd_sock) (n v).0 (n v).1
              (make-Fresh (λ j. j) (λ h. h.disk) (handle_of authd_sock) (λ j. refl) (m v).0 (m v).1
                (open_disk-Fresh (session_of ticket authd_sock) a v))

    module _ {A : Type 0} (body : DiskHandle → Exec World A) (kb : (h : DiskHandle) → Safe (body h))
        (ks : (h : DiskHandle) (w : World) → IsSound h.disk w → IsSound h.disk (body h w).1) where
      close_after-OpensNothing :
          (h : DiskHandle) (w : World) (r : Resource)
          → IsSound h.disk w
          → is_held (close_after h (body h w)).1 r ≡ true
          → (is_held w r ≡ true) × ¬ HandleHolds h r
      close_after-OpensNothing h w r sound held =
          let (before, other) =
            close-Releases h (body h w).1 (ks h w sound) r
              (close_world h (body h w).0 (body h w).1 r held) in
          ((kb h).at w r before, other)

      handle-OpensNothing :
          (w : World) (x : Result DiskHandle) (w' : World)
          → GainsAll HandleHolds w (x, w')
          → Fresh (λ h. h.disk) (x, w')
          → OpensNothing w (proceed (x, w') (λ h v. close_after h (body h v))).1
      handle-OpensNothing w (ok h) w' gains fresh = λ r held.
          let (before, other) = close_after-OpensNothing h w' r (λ marked. cc) held in
          elim (gains r before) [ inl old ↦ old | inr mine ↦ absurd (other mine) ]
      handle-OpensNothing w (err e) w' gains fresh = gains

      -- If the system takes the options of duplicated sockets, TLS contexts can be made, and the
      -- body of the `with` statement leaves nothing open that was not open before, and does not
      -- leave a disk marked as closed with an open socket if it did not find it so, for any handle,
      -- then `open` with that body leaves nothing open that was not open before: whether the flags
      -- are refused, the ticket, authd or the opening of the disk fails, the body returns or
      -- raises, or the closing raises.
      pub open_handle-Safe :
          Safe (open_handle env conn disk_path flags buffer_size buffer_count body)
      unfolding open_handle
      open_handle-Safe = record {
        at = λ w.
            let m = open_enter env conn disk_path flags buffer_size buffer_count in
            handle-OpensNothing w (m w).0 (m w).1 (open_enter-AcquiresAll.at w)
              (open_enter-Fresh w);
      }
