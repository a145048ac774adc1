-- ===== src/Tests/Leaks.antt =====
-- Logins and the authd handshake against an environment that grants everything.
use open_vix_disk_lib.Prelude.{
  true, false, none, some, [], ◌∷◌, codes, ◌↔◌, ◌+◌, arith, List, ◌≡◌, refl,
}
use open_vix_disk_lib.Error.{ok}
use open_vix_disk_lib.Exec.{pure}
use open_vix_disk_lib.Conn.{piece, Arrival, Conn}
use open_vix_disk_lib.World.{Env, Ticket, virtual_disk, backing, no_backing, Device, other_device}
use open_vix_disk_lib.World.Flags.{socket, session, Safe, Acquires, Safe-pure, disk}
use open_vix_disk_lib.Authd.{connect_authd, max_line, read_until_eol}
use open_vix_disk_lib.Authd.Leaks.{connect_authd-Acquires}
use open_vix_disk_lib.Authd.Delivered.{read_until_eol_lem}
use open_vix_disk_lib.Conn.Receive.{Delivers}
use open_vix_disk_lib.Handle.{connect}
use open_vix_disk_lib.Authd.Lines.{LineEnds, read_until_eol-LineEnds}
use open_vix_disk_lib.Session.{NfcAuthSession, open_disk}
use open_vix_disk_lib.Session.Leaks.{TakesOptions, open_disk-Acquires}
use open_vix_disk_lib.Open.{OpenArgs}
use open_vix_disk_lib.Vim.{virtual_disk_key, connect_vim}
use open_vix_disk_lib.Vim.Disks.{FirstDisk, virtual_disk_key-FirstDisk}
use open_vix_disk_lib.Vim.Leaks.{connect_vim-Acquires}
use open_vix_disk_lib.Handle.Leaks.{connect-Safe}
use open_vix_disk_lib.Tests.{conn_with}

abbrev pub ticket : Ticket
ticket = record {
  host = codes "esx";
  port = 902;
  session_id = codes "52";
  service = none;
  ssl_thumbprint = some (codes "01:02");
}

-- authd's banner comes in plain text, and its three answers over TLS.
abbrev pub env : Env
env = record {
  smart_connect = λ w login. ok tt;
  service_versions = codes "vim.version.v8_0_1_0" ∷ [];
  has_nfc_type = λ w. false;
  get_vm_files = λ w vm. ok ticket;
  random_access_open_readonly = λ w vm key host. ok ticket;
  random_access_open = λ w vm key host. ok ticket;
  devices = λ w vm. ok (virtual_disk 2000 (backing (some (codes "[ds] a.vmdk")) no_backing) ∷ []);
  runtime_host = λ w vm. ok 1;
  create_connection = λ w host port. ok (conn_with (piece (codes "220 ready\n") ∷ []));
  wrap_socket = λ w raw host. ok (conn_with (piece (codes "220 a\n200 b\n200 c\n") ∷ []));
  dup = λ w raw. ok raw;
  set_options = λ w c. ok tt;
  client_context = λ w. ok tt;
  peer_certificate = λ w c. 1 ∷ [];
  sha1 = λ cert. 1 ∷ 2 ∷ [];
}

connect_authd-Acquires_example : Acquires socket (connect_authd env ticket false true)
connect_authd-Acquires_example = connect_authd-Acquires env ticket false true

connect_vim-Acquires_example :
    Acquires session
      (connect_vim env (codes "vc") (codes "root") (codes "pw") 443 (some (codes "01:02")) false)
connect_vim-Acquires_example =
    connect_vim-Acquires env (codes "vc") (codes "root") (codes "pw") 443 (some (codes "01:02"))
      false

connect-Safe_example : Safe (
    connect env
      (codes "vc")
      none
      (codes "root")
      (codes "pw")
      (some (codes "moref=vm-1"))
      none
      true
      none
      443
      true
      (λ conn. pure conn.si))
connect-Safe_example =
    connect-Safe env (codes "vc") none (codes "root") (codes "pw") (some (codes "moref=vm-1")) none
      true none 443 true (λ conn. pure conn.si) (λ conn. Safe-pure conn.si)

abbrev pub auth_session : NfcAuthSession
auth_session = record { si = 0; ticket = ticket; authd_sock = 3; nfc_ssl = true }

abbrev pub args : OpenArgs
args = record {
  disk_path = codes "[ds] a.vmdk";
  client_name = codes "vddk";
  op_id = codes "nbdmode";
  version = 11;
  read_only = true;
  compression = 0;
  aio_buffer_size = 65536;
  aio_buffer_count = 1;
}

pub env-TakesOptions : TakesOptions env
env-TakesOptions = record { options = λ w c. refl; context = λ w. refl }

open_disk-Acquires_example : Acquires disk (open_disk env auth_session args)
open_disk-Acquires_example = open_disk-Acquires env env-TakesOptions auth_session args

-- A snapshot's disk, whose parent is the file.
abbrev devices : List Device
devices =
    other_device
    ∷ virtual_disk 2000
        (backing (some (codes "b.vmdk")) (backing (some (codes "a.vmdk")) no_backing))
    ∷ []

virtual_disk_key-FirstDisk_example :
    (virtual_disk_key devices (codes "a.vmdk") ≡ ok 2000) ↔ FirstDisk (codes "a.vmdk") 2000 devices
virtual_disk_key-FirstDisk_example = virtual_disk_key-FirstDisk devices (codes "a.vmdk") 2000

read_until_eol-LineEnds_example :
    LineEnds (read_until_eol (max_line + 1) [] (conn_with (piece (codes "220 ready\n") ∷ []))).0
read_until_eol-LineEnds_example =
    read_until_eol-LineEnds (conn_with (piece (codes "220 ready\n") ∷ []))

-- A short banner, and a byte of the TLS handshake behind it.
abbrev banner : Conn
banner = conn_with (piece (50 ∷ 50 ∷ []) ∷ piece (48 ∷ 10 ∷ 22 ∷ []) ∷ [])

read_until_eol_lem_example :
    (rest : List Arrival) × (read_until_eol (max_line + 1) [] banner
      ≡ (ok (50 ∷ 50 ∷ 48 ∷ 10 ∷ []), conn_with rest))
    × Delivers rest (22 ∷ [])
read_until_eol_lem_example =
    read_until_eol_lem banner (50 ∷ 50 ∷ 48 ∷ []) (22 ∷ []) refl
      ((λ e. omega arith), ((λ e. omega arith), ((λ e. omega arith), tt))) (omega arith)
      (record { pieces = (tt, (tt, tt)); bytes = refl })
