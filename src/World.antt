-- ===== src/World.antt =====
-- What the process holds: its sockets, its disks and its VIM sessions, each under a number that stands
-- for the Python object; and what the package takes from outside, pyVmomi, `ssl`, `socket` and
-- `hashlib`, as functions that may look at all that was done before.
pub mod Flags
pub mod Actions
pub mod Conns
pub mod Several
use open_vix_disk_lib.Prelude.{
  ℕ, ◌+◌, Bool, true, false, Option, none, some, List, [], ◌∷◌, ◌==◌, if◌then◌else◌,
}
use open_vix_disk_lib.Error.{Result, ok, err}
use open_vix_disk_lib.Exec.{Exec}
use open_vix_disk_lib.Struct.{Bytes}
use open_vix_disk_lib.Text.{Text}
use open_vix_disk_lib.Conn.{Conn}
use open_vix_disk_lib.Conn
use open_vix_disk_lib.Aio.{NfcDisk}

-- A field of an object that may be absent, or empty: Python's `x or default`, and its truth.
abbrev pub or_default : Text → Option Text → Text
or_default d none = d
or_default d (some []) = d
or_default d (some (c ∷ s)) = c ∷ s

abbrev pub is_set : Option Text → Bool
is_set none = false
is_set (some []) = false
is_set (some (c ∷ s)) = true

-- `vim.HostServiceTicket`; port 0 stands for an absent port too.
pub record Ticket : Type 0 where
  pub host : Text
  pub port : ℕ
  pub session_id : Text
  pub service : Option Text
  pub ssl_thumbprint : Option Text

-- The backing of a device, with its chain of parents; a backing may have no file name.
pub data Backing : Type 0 where
  no_backing : Backing
  backing : Option Text → Backing → Backing

pub data Device : Type 0 where
  virtual_disk : ℕ → Backing → Device
  other_device : Device

-- `update f k v` is `f` with `f[k] = v`.
abbrev pub update : {A : Type 0} → (ℕ → A) → ℕ → A → ℕ → A
update f k v i = if i == k then v else f i

pub record World : Type 0 where
  pub conns : ℕ → Conn
  pub next_conn : ℕ
  pub disks : ℕ → NfcDisk
  pub next_disk : ℕ
  pub sessions : ℕ → Bool
  pub next_session : ℕ
  pub types_registered : Bool
  pub types_created : ℕ

-- The arguments of `SmartConnect`.
pub record Login : Type 0 where
  pub host : Text
  pub user : Text
  pub pwd : Text
  pub port : ℕ
  pub thumbprint : Option Text
  pub skip_ca : Bool
  pub versions : List Text

pub record Env : Type 0 where
  pub smart_connect : World → Login → Result (Unit {0})
  pub service_versions : List Text
  pub has_nfc_type : World → Bool
  pub get_vm_files : World → Text → Result Ticket
  pub random_access_open_readonly : World → Text → ℕ → ℕ → Result Ticket
  pub random_access_open : World → Text → ℕ → ℕ → Result Ticket
  pub devices : World → Text → Result (List Device)
  pub runtime_host : World → Text → Result ℕ
  pub create_connection : World → Text → ℕ → Result Conn
  pub wrap_socket : World → Conn → Text → Result Conn
  pub dup : World → Conn → Result Conn
  pub set_options : World → Conn → Result (Unit {0})
  pub client_context : World → Result (Unit {0})
  pub peer_certificate : World → Conn → Bytes
  pub sha1 : Bytes → Bytes

-- The flags of a socket that was made.
abbrev pub put_conn : ℕ → Conn → World → World
put_conn fd c w = record w { conns = update w.conns fd c }

abbrev pub put_disk : ℕ → NfcDisk → World → World
put_disk i d w = record w { disks = update w.disks i d }

-- An action on one socket, and on one disk.
unfoldable pub on_conn : {A : Type 0} → ℕ → Exec Conn A → Exec World A
on_conn fd m w = let (r, c) = m (w.conns fd) in (r, put_conn fd c w)

unfoldable pub on_disk : {A : Type 0} → ℕ → Exec NfcDisk A → Exec World A
on_disk i m w = let (r, d) = m (w.disks i) in (r, put_disk i d w)

-- A new socket object.
add_conn : Result Conn → World → Result ℕ × World
add_conn (ok c) w =
    (ok w.next_conn, record w { conns = update w.conns w.next_conn c; next_conn = w.next_conn + 1 })
add_conn (err e) w = (err e, w)

unfoldable pub new_conn : (World → Result Conn) → Exec World ℕ
unfolding add_conn
new_conn make w = add_conn (make w) w

-- `sock.close()`
unfoldable pub close_conn : ℕ → World → World
close_conn fd w = put_conn fd (Conn.close (w.conns fd)) w

-- `Disconnect(si)`: pyVim's function does not raise.
unfoldable pub disconnect_session : ℕ → World → World
disconnect_session si w = record w { sessions = update w.sessions si false }

-- A new session after a login.
add_session : Result (Unit {0}) → World → Result ℕ × World
add_session (ok _) w = (
  ok w.next_session,
  record w { sessions = update w.sessions w.next_session true; next_session = w.next_session + 1 },
)
add_session (err e) w = (err e, w)

unfoldable pub new_session : (World → Result (Unit {0})) → Exec World ℕ
unfolding add_session
new_session login w = add_session (login w) w
