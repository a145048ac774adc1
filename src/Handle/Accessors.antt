-- ===== src/Handle/Accessors.antt =====
-- The methods of `VixDiskLibHandle` that return a constant or a field, `get_buffer`, and the constants
-- that the callers of openvixdisklib/openvixdisklib.py use.
use open_vix_disk_lib.Prelude.{ℕ, Bool, codes, List, replicate, false, if◌then◌else◌}
use open_vix_disk_lib.Text.{Text}
use open_vix_disk_lib.Read.Fragment.{Buffer}
use open_vix_disk_lib.Handle.{DiskHandle, supported_modes}

abbrev version_major : ℕ
version_major = 8

abbrev version_minor : ℕ
version_minor = 0

abbrev cred_uid : ℕ
cred_uid = 1

abbrev flag_open_unbuffered : ℕ
flag_open_unbuffered = 1

abbrev flag_open_single_link : ℕ
flag_open_single_link = 2

-- `ctypes.create_string_buffer(size)`: writable, and all zero.
abbrev get_buffer : ℕ → Buffer
get_buffer size = record { readonly = false; bytes = replicate size 0 }

-- The argument is `os.name == "nt"`.
abbrev get_vix_disklib_name : Bool → Text
get_vix_disklib_name is_nt = if is_nt then codes "vixDiskLib.dll" else codes "libvixDiskLib.so"

abbrev get_transport_modes : List Text
get_transport_modes = supported_modes

abbrev get_transport_mode : DiskHandle → Text
get_transport_mode h = h.transport_mode
