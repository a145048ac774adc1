-- ===== src/Error.antt =====
-- The exceptions of openvixdisklib/*.py: one constructor for each class, and for each `raise` a
-- constructor with the values that its message shows. A result is a value or an exception.
use open_vix_disk_lib.Prelude.{ℕ, ◌≡◌, refl, ◌⊎◌, inl, inr, List}

-- `NfcProtocolError`
pub data ProtocolFault : Type 0 where
  connection_closed : ℕ → ℕ → ProtocolFault
  bad_extra_length : ℕ → ℕ → ProtocolFault
  unsupported_compression : ℕ → ProtocolFault
  bad_magic : ℕ → ProtocolFault
  aio_error : ℕ → ℕ → ProtocolFault
  unexpected_reply : ℕ → ℕ → ℕ → ℕ → ProtocolFault
  reply_too_short : ℕ → ProtocolFault
  invalid_chunk : ℕ → ℕ → ℕ → ProtocolFault
  packed_too_long : ℕ → ℕ → ProtocolFault
  fragment_not_decompressed : ProtocolFault
  fragment_length : ℕ → ℕ → ProtocolFault
  unexpected_message : ℕ → ℕ → ProtocolFault
  version_too_old : ℕ → ProtocolFault
  open_reply_too_short : ℕ → ProtocolFault
  not_a_disk : ℕ → ProtocolFault

-- `ValueError`; `not_encodable` is its subclass `UnicodeEncodeError`
pub data ValueFault : Type 0 where
  fastlz_failed fastlz_truncated fastlz_empty : ValueFault
  fastlz_over_cap : ℕ → ℕ → ValueFault
  message_too_large no_sectors : ValueFault
  write_length : ℕ → ℕ → ValueFault
  no_buffer_size no_buffer_count not_encodable : ValueFault
  no_vmx_spec : ValueFault
  unsupported_vmx_spec : List ℕ → ValueFault
  unsupported_version : List ℕ → ValueFault
  not_attached : List ℕ → ValueFault
  ticket_needs_disk : ValueFault

-- `ConnectionError`, of `nfc_auth`
pub data ConnectionFault : Type 0 where
  authd_closed oversized_response : ConnectionFault
  unexpected_banner : List ℕ → ConnectionFault
  command_failed : List ℕ → List ℕ → ConnectionFault
  no_peer_certificate : ConnectionFault
  thumbprint_mismatch : List ℕ → List ℕ → ConnectionFault

-- `NotImplementedError`
pub data MissingFault : Type 0 where
  compression_type : ℕ → MissingFault
  several_algorithms : MissingFault
  algorithm : ℕ → MissingFault
  transports : List ℕ → MissingFault
  read_only_connection : MissingFault

-- `runtime_error` is the `RuntimeError` of docs/probing_samples/nfc_write_probe.py.
-- `os_error` is a failure of the network, and `external_error` one raised by pyVmomi. `out_of_fuel`
-- is no exception: a loop of the model ran out of rounds.
pub data Error : Type 0 where
  protocol_error : ProtocolFault → Error
  value_error : ValueFault → Error
  connection_error : ConnectionFault → Error
  not_implemented : MissingFault → Error
  buffer_read_only : Error
  buffer_too_small : ℕ → ℕ → Error
  no_vim_types : Error
  runtime_error : ℕ → ℕ → Error
  struct_error os_error external_error out_of_fuel : Error

pub data Result {ℓ} (A : Type ℓ) : Type ℓ where
  ok : A → Result A
  err : Error → Result A

pub Result-cases {ℓ} :
    {A : Type ℓ} (r : Result A) → ((a : A) × (r ≡ ok a)) ⊎ ((e : Error) × (r ≡ err e))
Result-cases (ok a) = inl (a, refl)
Result-cases (err e) = inr (e, refl)

-- Pure code that may raise: sequencing.
abbrev pub and_then {ℓ κ} : {A : Type ℓ} {B : Type κ} → Result A → (A → Result B) → Result B
and_then (ok a) f = f a
and_then (err e) f = err e
