-- ===== src/World/Conns.antt =====
-- What an action on one socket object does to it and to the others.
use open_vix_disk_lib.Prelude.{ℕ, ◌+◌, ◌≡◌, refl, false, ◌==◌, ==_refl}
use open_vix_disk_lib.Error.{Result, ok}
use open_vix_disk_lib.Exec.{Exec}
use open_vix_disk_lib.Conn.{Conn}
use open_vix_disk_lib.Aio.{NfcDisk}
use open_vix_disk_lib.World.{
  World, update, put_conn, put_disk, on_conn, on_disk, new_conn, add_conn, close_conn,
}

-- The world with a new socket object.
abbrev pub with_conn : Conn → World → World
with_conn c w = record w { conns = update w.conns w.next_conn c; next_conn = w.next_conn + 1 }

pub new_conn_lem :
    (make : World → Result Conn) (w : World) (c : Conn)
    → make w ≡ ok c
    → new_conn make w ≡ (ok w.next_conn, with_conn c w)
unfolding new_conn add_conn
new_conn_lem make w c e = rw e refl

pub on_conn_lem :
    {A : Type 0} (fd : ℕ) (m : Exec Conn A) (w : World) (c : Conn) (x : Result A) (c' : Conn)
    → w.conns fd ≡ c
    → m c ≡ (x, c')
    → on_conn fd m w ≡ (x, put_conn fd c' w)
unfolding on_conn
on_conn_lem fd m w c x c' e e' = rw (e, e') refl

-- A socket object under a number, and the others.
pub put_conn-same : (fd : ℕ) (c : Conn) (w : World) → (put_conn fd c w).conns fd ≡ c
put_conn-same fd c w = rw (==_refl fd) refl

pub conns-close_conn :
    (fd k : ℕ) (w : World) → (k == fd) ≡ false → (close_conn fd w).conns k ≡ w.conns k
unfolding close_conn
conns-close_conn fd k w e = rw e refl

pub close_conn-closed : (fd : ℕ) (w : World) → ((close_conn fd w).conns fd).is_open ≡ false
unfolding close_conn
close_conn-closed fd w = rw (==_refl fd) refl

pub on_disk_lem :
    {A : Type 0} (i : ℕ) (m : Exec NfcDisk A) (w : World) (d : NfcDisk) (x : Result A)
    (d' : NfcDisk)
    → w.disks i ≡ d
    → m d ≡ (x, d')
    → on_disk i m w ≡ (x, put_disk i d' w)
unfolding on_disk
on_disk_lem i m w d x d' e e' = rw (e, e') refl

pub put_disk-same : (i : ℕ) (d : NfcDisk) (w : World) → (put_disk i d w).disks i ≡ d
put_disk-same i d w = rw (==_refl i) refl

pub disks-close_conn : (fd : ℕ) (w : World) → (close_conn fd w).disks ≡ w.disks
unfolding close_conn
disks-close_conn fd w = refl
