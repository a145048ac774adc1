-- ===== src/Handle.antt =====
-- The VDDK-shaped handle (openvixdisklib/openvixdisklib.py): its options, and `VixDiskLibHandle` with
-- `connect`, `open`, `read`, `write`, `close`, `disconnect`. The two context managers take the body of
-- the `with` statement as an action.
pub mod Leaks
pub mod Closing
pub mod Holding
pub mod Options
pub mod Accessors
pub mod Opened
pub mod Whole
use open_vix_disk_lib.Prelude.{
  ℕ, ◌+◌, ◌-◌, ◌*◌, Bool, true, false, ◌&&◌, ◌||◌, not, bit_and, codes, Option, none, some, List,
  [], ◌∷◌, ◌++◌, ltb, ◌==◌, length, take, text_eq, if◌then◌else◌,
}
use open_vix_disk_lib.Error.{
  Result, ok, err, value_error, not_implemented, several_algorithms, algorithm, no_vmx_spec,
  unsupported_vmx_spec, unsupported_version, transports, read_only_connection,
}
use open_vix_disk_lib.Exec.{
  Exec, ◌>>=◌, ◌>>◌, pure, lift, gets, proceed, done, modify, raise_if, on_error, clean_up, finally,
}
use open_vix_disk_lib.Struct.{Bytes}
use open_vix_disk_lib.Text.{Text, split, split_once, lower, is_one_of}
use open_vix_disk_lib.Fastlz.{Codec}
use open_vix_disk_lib.Aio.{NfcDisk, nfc_compression_none, nfc_compression_fastlz}
use open_vix_disk_lib.Read.Fragment.{ReadResult, Buffer}
use open_vix_disk_lib.Read.{readinto}
use open_vix_disk_lib.Write.{write}
use open_vix_disk_lib.Open.{OpenArgs, close_disk, nfc_protocol_version}
use open_vix_disk_lib.World.{World, Env, put_disk, on_disk, close_conn, disconnect_session}
use open_vix_disk_lib.Authd.{connect_authd}
use open_vix_disk_lib.Vim.{connect_vim, get_nfc_ticket}
use open_vix_disk_lib.Session.{NfcAuthSession, open_disk}

abbrev pub sector_size : ℕ
sector_size = 512

-- The open flags that the code tests.
abbrev pub flag_open_read_only : ℕ
flag_open_read_only = 4

abbrev pub flag_compression_zlib : ℕ
flag_compression_zlib = 16

abbrev pub flag_compression_fastlz : ℕ
flag_compression_fastlz = 32

abbrev pub flag_compression_skipz : ℕ
flag_compression_skipz = 64

-- What `alg`, the flags under the mask of the three algorithms, selects.
unfoldable pub compression_of : ℕ → Result ℕ
compression_of alg =
    if alg == 0
    then ok nfc_compression_none
    else if alg == flag_compression_fastlz
    then ok nfc_compression_fastlz
    else if not (bit_and alg (alg - 1) == 0)
    then err (not_implemented several_algorithms)
    else err (not_implemented (algorithm alg))

-- The mask is the bitwise or of three single bits, which is their sum.
unfoldable pub nfc_compression : ℕ → Result ℕ
unfolding compression_of
nfc_compression flags =
    compression_of
      (bit_and flags (flag_compression_zlib + flag_compression_fastlz + flag_compression_skipz))

vm_moref_of : Text → Option (Text × Text) → Result Text
vm_moref_of spec none = ok spec
vm_moref_of spec (some (kind, [])) = err (value_error (unsupported_vmx_spec spec))
vm_moref_of spec (some (kind, c ∷ value)) =
    if text_eq (lower kind) (codes "moref")
    then ok (c ∷ value)
    else err (value_error (unsupported_vmx_spec spec))

unfoldable pub parse_vm_moref : Option Text → Result Text
unfolding vm_moref_of
parse_vm_moref none = err (value_error no_vmx_spec)
parse_vm_moref (some []) = err (value_error no_vmx_spec)
parse_vm_moref (some (c ∷ s)) = vm_moref_of (c ∷ s) (split_once b'=' (c ∷ s))

-- The transports that the replacement implements.
abbrev pub supported_modes : List Text
supported_modes = codes "nbdssl" ∷ codes "nbd" ∷ []

unfoldable pub first_supported : List Text → Option Text
first_supported [] = none
first_supported (mode ∷ modes) =
    if is_one_of mode supported_modes then some mode else first_supported modes

unfoldable pub selected : Text → Option Text → Result Text
selected modes none = err (not_implemented (transports modes))
selected modes (some mode) = ok mode

unfoldable pub select_transport : Option Text → Result Text
unfolding first_supported selected
select_transport none = ok (codes "nbdssl")
select_transport (some modes) = selected modes (first_supported (split b':' modes))

abbrev pub supported_versions : List Text
supported_versions = codes "8.0" ∷ []

-- The constructor of the handle returns the version that it targets.
unfoldable pub target_version : Option Text → Result Text
target_version none = ok (codes "8.0")
target_version (some []) = ok (codes "8.0")
target_version (some (c ∷ s)) =
    if is_one_of (c ∷ s) supported_versions
    then ok (c ∷ s)
    else err (value_error (unsupported_version (c ∷ s)))

-- `_Connection`
pub record Connection : Type 0 where
  pub si : ℕ
  pub vm_moref : Text
  pub snapshot_ref : Option Text
  pub thumbprint : Option Text
  pub allow_untrusted : Bool
  pub read_only : Bool
  pub transport_mode : Text

-- `_DiskHandle`: the numbers of the disk and of authd's socket.
pub record DiskHandle : Type 0 where
  pub disk : ℕ
  pub authd_sock : ℕ
  pub transport_mode : Text

-- `flags & VIXDISKLIB_FLAG_OPEN_READ_ONLY`
abbrev pub is_read_only : ℕ → Bool
is_read_only flags = not (bit_and flags flag_open_read_only == 0)

abbrev pub open_args : Text → Bool → ℕ → ℕ → ℕ → OpenArgs
open_args path read_only compression buffer_size buffer_count = record {
  disk_path = path;
  client_name = codes "vddk";
  op_id = codes "nbdmode";
  version = nfc_protocol_version;
  read_only = read_only;
  compression = compression;
  aio_buffer_size = buffer_size;
  aio_buffer_count = buffer_count;
}

-- `VixDiskLibHandle.close`: authd's socket is closed whatever the disk's `close` does.
unfoldable pub close : DiskHandle → Exec World (Unit {0})
close h = finally (close_conn h.authd_sock) (on_disk h.disk close_disk)

unfoldable pub disconnect : Connection → World → World
disconnect conn = disconnect_session conn.si

-- `finally: self.close(handle)`; what `close` raises replaces what the body returned or raised.
unfoldable pub close_after : {A : Type 0} → DiskHandle → Result A × World → Result A × World
close_after h (r, w) = proceed (close h w) (λ _ w'. (r, w'))

module _ (env : Env) where
  -- `connect` up to its `yield`.
  unfoldable pub connect_enter :
      Text
      → Option Text
      → Text
      → Text
      → Option Text
      → Option Text
      → Bool
      → Option Text
      → ℕ
      → Bool
      → Exec World Connection
  connect_enter server thumbprint username password vmx_spec snapshot_ref read_only transport_modes
        port allow_untrusted =
      do
        transport_mode ← lift (select_transport transport_modes)
        vm_moref ← lift (parse_vm_moref vmx_spec)
        si ← connect_vim env server username password port thumbprint allow_untrusted
        pure (record {
          si = si;
          vm_moref = vm_moref;
          snapshot_ref = snapshot_ref;
          thumbprint = thumbprint;
          allow_untrusted = allow_untrusted;
          read_only = read_only;
          transport_mode = transport_mode;
        })

  unfoldable pub connect :
      {A : Type 0}
      → Text
      → Option Text
      → Text
      → Text
      → Option Text
      → Option Text
      → Bool
      → Option Text
      → ℕ
      → Bool
      → (Connection → Exec World A)
      → Exec World A
  connect server thumbprint username password vmx_spec snapshot_ref read_only transport_modes port
        allow_untrusted body =
      do
        conn ←
            connect_enter server thumbprint username password vmx_spec snapshot_ref read_only
              transport_modes port allow_untrusted
        finally (disconnect conn) (body conn)

  -- `open` up to its `yield`.
  unfoldable pub open_enter : Connection → Text → ℕ → ℕ → ℕ → Exec World DiskHandle
  open_enter conn disk_path flags buffer_size buffer_count = do
    compression ← lift (nfc_compression flags)
    raise_if (not (is_read_only flags) && conn.read_only) (not_implemented read_only_connection)
    let nfc_ssl = text_eq conn.transport_mode (codes "nbdssl")
    ticket ←
        get_nfc_ticket env conn.vm_moref none none (is_read_only flags)
          (if is_read_only flags then none else some disk_path)
    authd_sock ← connect_authd env ticket conn.allow_untrusted nfc_ssl
    on_error (close_conn authd_sock) (do
      disk ←
          open_disk env
            (record { si = conn.si; ticket = ticket; authd_sock = authd_sock; nfc_ssl = nfc_ssl })
            (open_args disk_path (is_read_only flags) compression buffer_size buffer_count)
      pure (record { disk = disk; authd_sock = authd_sock; transport_mode = conn.transport_mode }))

  unfoldable pub open_handle :
      {A : Type 0} → Connection → Text → ℕ → ℕ → ℕ → (DiskHandle → Exec World A) → Exec World A
  unfolding close_after
  open_handle conn disk_path flags buffer_size buffer_count body = do
    h ← open_enter conn disk_path flags buffer_size buffer_count
    (λ w. close_after h (body h w))

module _ (lz : Codec) where
  -- `VixDiskLibHandle.read`: the result, and the buffer afterwards.
  unfoldable pub read :
      DiskHandle → ℕ → ℕ → Buffer → Bool → World → Result ReadResult × Buffer × World
  read h start_sector num_sectors b skip w =
      let (r, d, b') = readinto lz start_sector num_sectors b skip (w.disks h.disk) in
      (r, b', put_disk h.disk d w)

  -- `VixDiskLibHandle.write`: the first `num_sectors * 512` bytes of the buffer are the data.
  unfoldable pub write_buffer : DiskHandle → ℕ → ℕ → Bytes → Exec World (Unit {0})
  write_buffer h start_sector num_sectors buf =
      on_disk h.disk (write lz start_sector num_sectors (take (num_sectors * sector_size) buf))
