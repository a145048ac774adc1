-- ===== src/Vim.antt =====
-- The SOAP side of openvixdisklib/nfc_auth.py: the registration of `vim.NfcService`,
-- `_vim_preferred_api_versions`, `get_ssl_cert_thumbprint`, `connect_vim`, `_virtual_disk_key`,
-- `get_nfc_ticket`. A virtual machine is its managed object id, and a host a number.
pub mod Leaks
pub mod Disks
pub mod Methods
use open_vix_disk_lib.Prelude.{
  ℕ, ◌+◌, Bool, true, false, ◌&&◌, ◌||◌, not, codes, Option, none, some, List, [], ◌∷◌, ◌++◌,
  text_eq, if◌then◌else◌,
}
use open_vix_disk_lib.Error.{
  Result, ok, err, connection_error, value_error, no_vim_types, no_peer_certificate,
  thumbprint_mismatch, not_attached, ticket_needs_disk,
}
use open_vix_disk_lib.Exec.{
  Exec, ◌>>=◌, ◌>>◌, pure, raise, lift, gets, proceed, done, modify, raise_if, on_error, clean_up,
}
use open_vix_disk_lib.Struct.{Bytes}
use open_vix_disk_lib.Text.{Text, starts_with}
use open_vix_disk_lib.Conn.{Conn}
use open_vix_disk_lib.Thumbprint.{format_thumbprint, normalize_thumbprint}
use open_vix_disk_lib.Vim.Methods.{nfc_service_moid}
use open_vix_disk_lib.World.{
  World, Env, Login, Ticket, Backing, no_backing, backing, Device, virtual_disk, other_device,
  is_set, or_default, new_conn, close_conn, new_session,
}
use open_vix_disk_lib.Authd.{wrap_socket}

-- The versions of the 8.x family, in the order that pyVmomi gives them.
unfoldable pub filter_versions : List Text → List Text
filter_versions [] = []
filter_versions (v ∷ vs) =
    let rest = filter_versions vs in
    if starts_with v (codes "vim.version.v8_") then v ∷ rest else rest

some_versions : List Text → Result (List Text)
some_versions [] = err no_vim_types
some_versions (v ∷ vs) = ok (v ∷ vs)

unfoldable pub vim_preferred_api_versions : List Text → Result (List Text)
unfolding filter_versions some_versions
vim_preferred_api_versions known = some_versions (filter_versions known)

-- `backing` or one of its parents has the file name.
unfoldable pub in_chain : Text → Backing → Bool
in_chain path no_backing = false
in_chain path (backing none parent) = in_chain path parent
in_chain path (backing (some name) parent) = text_eq name path || in_chain path parent

unfoldable pub find_disk : Text → List Device → Option ℕ
unfolding in_chain
find_disk path [] = none
find_disk path (other_device ∷ ds) = find_disk path ds
find_disk path (virtual_disk key b ∷ ds) = if in_chain path b then some key else find_disk path ds

unfoldable pub attached : Text → Option ℕ → Result ℕ
attached path none = err (value_error (not_attached path))
attached path (some key) = ok key

unfoldable pub virtual_disk_key : List Device → Text → Result ℕ
unfolding find_disk attached
virtual_disk_key devices path = attached path (find_disk path devices)

abbrev pub is_none : {A : Type 0} → Option A → Bool
is_none none = true
is_none (some a) = false

module _ (env : Env) where
  -- `_register_nfc_types`: the types are created unless pyVmomi has them, and once.
  unfoldable pub register_nfc_types : World → World
  register_nfc_types w =
      if w.types_registered
      then w
      else if env.has_nfc_type w
      then record w { types_registered = true }
      else record w { types_registered = true; types_created = w.types_created + 1 }

  unfoldable pub peer_thumbprint : Bytes → Result Text
  peer_thumbprint [] = err (connection_error no_peer_certificate)
  peer_thumbprint (b ∷ bs) = ok (format_thumbprint (env.sha1 (b ∷ bs)))

  -- With the default digest, SHA-1. Both `with` blocks close their socket on every way out.
  unfoldable pub get_ssl_cert_thumbprint : Text → ℕ → Exec World Text
  get_ssl_cert_thumbprint host port = do
    sock ← new_conn (λ w. env.create_connection w host port)
    ssock ← on_error (close_conn sock) (wrap_socket env sock host)
    cert ← gets (λ w. env.peer_certificate w (w.conns ssock))
    modify (close_conn ssock)
    modify (close_conn sock)
    lift (peer_thumbprint cert)

  unfoldable pub check_pin : Text → ℕ → Text → Exec World (Unit {0})
  check_pin host port thumbprint = do
    peer ← get_ssl_cert_thumbprint host port
    raise_if (not (text_eq (normalize_thumbprint peer) (normalize_thumbprint thumbprint)))
        (connection_error (thumbprint_mismatch peer thumbprint))

  unfoldable pub connect_vim : Text → Text → Text → ℕ → Option Text → Bool → Exec World ℕ
  unfolding check_pin
  connect_vim host username password port thumbprint allow_untrusted = do
    if is_set thumbprint && not allow_untrusted
        then check_pin host port (or_default [] thumbprint)
        else done
    versions ← lift (vim_preferred_api_versions env.service_versions)
    new_session (λ w. env.smart_connect w (record {
      host = host;
      user = username;
      pwd = password;
      port = port;
      thumbprint = thumbprint;
      skip_ca = allow_untrusted || is_set thumbprint;
      versions = versions;
    }))

  -- `disk_device_key`, or the key of `disk_path`, or an error if neither is given.
  unfoldable pub device_key : Text → Option ℕ → Option Text → Exec World ℕ
  device_key vm (some key) path w = (ok key, w)
  device_key vm none none w = (err (value_error ticket_needs_disk), w)
  device_key vm none (some path) w =
      proceed (env.devices w vm, w) (λ devices. lift (virtual_disk_key devices path))

  unfoldable pub host_or_runtime : Text → Option ℕ → Exec World ℕ
  host_or_runtime vm (some host) w = (ok host, w)
  host_or_runtime vm none w = (env.runtime_host w vm, w)

  unfoldable pub disk_ticket : Text → ℕ → ℕ → Bool → Exec World Ticket
  disk_ticket vm key host true w = (env.random_access_open_readonly w vm key host, w)
  disk_ticket vm key host false w = (env.random_access_open w vm key host, w)

  -- The managed object on the session's SOAP stub, by its identifier.
  unfoldable pub nfc_service : Exec World Text
  unfolding register_nfc_types
  nfc_service = do modify register_nfc_types; pure nfc_service_moid

  unfoldable pub get_nfc_ticket :
      Text → Option ℕ → Option ℕ → Bool → Option Text → Exec World Ticket
  unfolding nfc_service device_key host_or_runtime disk_ticket
  get_nfc_ticket vm disk_device_key host_for_access read_only disk_path = do
    nfc_service
    if read_only && is_none disk_device_key && is_none disk_path
        then (λ w. (env.get_vm_files w vm, w))
        else (do
          key ← device_key vm disk_device_key disk_path
          host ← host_or_runtime vm host_for_access
          disk_ticket vm key host read_only)
