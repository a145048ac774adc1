-- ===== src/Handle/Closing.antt =====
-- What `VixDiskLibHandle.close` (openvixdisklib/openvixdisklib.py) gives back.
use open_vix_disk_lib.Prelude.{ℕ, ◌≡◌, ◌≢◌, refl, ◌∙◌, ◌⊎◌, inl, inr, true, false, if◌then◌else◌}
use open_vix_disk_lib.Error.{Result, ok, err}
use open_vix_disk_lib.Exec.{proceed}
use open_vix_disk_lib.Aio.{NfcDisk}
use open_vix_disk_lib.Open.{close_disk}
use open_vix_disk_lib.Open.Cleanup.{disk_open, close_disk_marks}
use open_vix_disk_lib.World.{World, put_disk, on_disk}
use open_vix_disk_lib.World.Flags.{Resource, socket, disk, session, is_held}
use open_vix_disk_lib.World.Actions.{close_conn-Releases}
use open_vix_disk_lib.Session.Leaks.{put_disk-held}
use open_vix_disk_lib.Handle.{DiskHandle, close, close_after}

-- What a handle holds.
abbrev pub HandleHolds : DiskHandle → Resource → Type 0
HandleHolds h r = (r ≡ disk h.disk) ⊎ (r ≡ socket h.authd_sock)

-- A disk that is marked as closed has a closed socket.
abbrev pub IsSound : ℕ → World → Type 0
IsSound i w = (w.disks i).closed ≡ true → disk_open (w.disks i) ≡ false

closed_now : (i : ℕ) (w : World) → IsSound i w → disk_open (close_disk (w.disks i)).1 ≡ false
closed_now i w sound =
    elim (w.disks i).closed
        as (λ b.
          ((w.disks i).closed ≡ b)
          → disk_open (close_disk (w.disks i)).1 ≡ (if b then disk_open (w.disks i) else false)
          → disk_open (close_disk (w.disks i)).1 ≡ false) [
            | true ↦ (λ e m. m ∙ sound e)
            | false ↦ (λ e m. m)
          ]
      refl (close_disk_marks (w.disks i)).1

on_disk-held :
    (i : ℕ) (w : World) (r : Resource) (d : NfcDisk)
    → disk_open d ≡ false
    → is_held (put_disk i d w) r ≡ true
    → (is_held w r ≡ true) × (r ≢ disk i)
on_disk-held i w (socket k) d e h = (h, λ same. cc)
on_disk-held i w (session k) d e h = (h, λ same. cc)
on_disk-held i w (disk k) d e h = elim (put_disk-held i k d w h) [
  | inl (_, still) ↦ absurd (cc)
  | inr (other, before) ↦ (before, λ same. other (cc))
]

pub close-Releases :
    (h : DiskHandle) (w : World)
    → IsSound h.disk w
    → (r : Resource) → is_held (close h w).1 r ≡ true
    → (is_held w r ≡ true) × ¬ HandleHolds h r
unfolding close on_disk
close-Releases h w sound r held =
    let d : NfcDisk = (close_disk (w.disks h.disk)).1 in
    let (h1, o1) = close_conn-Releases h.authd_sock (put_disk h.disk d w) r held in
    let (h2, o2) = on_disk-held h.disk w r d (closed_now h.disk w sound) h1 in
    (h2, λ mine. elim mine [ inl e ↦ o2 e | inr e ↦ o1 e ])

pub close_world :
    {A : Type 0} (h : DiskHandle) (x : Result A) (w : World) (r : Resource)
    → is_held (close_after h (x, w)).1 r ≡ true
    → is_held (close h w).1 r ≡ true
unfolding close_after
close_world h x w r held = ended (close h w).0 (close h w).1 held
  where
    ended :
        (y : Result (Unit {0})) (v : World)
        → is_held (proceed (y, v) (λ _ w'. (x, w'))).1 r ≡ true
        → is_held v r ≡ true
    ended (ok u) v k = k
    ended (err e) v k = k
