-- ===== src/Thumbprint.antt =====
-- `_format_thumbprint`, `_sha1_thumbprint` and `_normalize_thumbprint` of openvixdisklib/nfc_auth.py.
use open_vix_disk_lib.Prelude.{ℕ, ◌+◌, ◌-◌, ◌/◌, ◌%◌, [], ◌∷◌, ltb, map, if◌then◌else◌}
use open_vix_disk_lib.Struct.{Bytes}
use open_vix_disk_lib.Text.{Text, join, remove_char, upper}

-- A digit of `X`, and `f"{byte:02X}"`.
abbrev pub hex_digit : ℕ → ℕ
hex_digit n = if ltb n 10 then b'0' + n else b'A' + (n - 10)

abbrev pub hex_byte : ℕ → Text
hex_byte b = hex_digit (b / 16) ∷ hex_digit (b % 16) ∷ []

unfoldable pub format_thumbprint : Bytes → Text
format_thumbprint digest = join (b':' ∷ []) (map hex_byte digest)

unfoldable pub sha1_thumbprint : (Bytes → Bytes) → Bytes → Text
unfolding format_thumbprint
sha1_thumbprint sha1 der_cert = format_thumbprint (sha1 der_cert)

unfoldable pub normalize_thumbprint : Text → Text
normalize_thumbprint t = upper (remove_char b' ' (remove_char b':' t))
