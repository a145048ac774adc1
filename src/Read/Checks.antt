-- ===== src/Read/Checks.antt =====
-- The checks of `readinto` (openvixdisklib/nfc_open.py) on any reply.
use open_vix_disk_lib.Prelude.{
  ℕ, ◌+◌, ◌/◌, ◌^◌, ◌≤◌, ◌<◌, ◌≡◌, refl, Bool, true, false, ◌||◌, List, arith, ltb, ◌==◌,
}
use open_vix_disk_lib.Error.{
  Result, ok, err, out_of_fuel, struct_error, value_error, protocol_error,
}
use open_vix_disk_lib.Exec.Runs.{Yields, Any}
use open_vix_disk_lib.Struct.{Bytes, unpack_from}
use open_vix_disk_lib.Error.{
  connection_error, not_implemented, buffer_read_only, buffer_too_small, no_vim_types, os_error,
  external_error, runtime_error,
}
use open_vix_disk_lib.Exec.Runs.{and_then-Yields, if-Yields}
use open_vix_disk_lib.Aio.Yields.{unpack_from-Yields, aio_extra_len-Yields}
use open_vix_disk_lib.Aio.{aio_extra_len}
use open_vix_disk_lib.Read.Fragment.{Chunk, parse_chunk, is_seen, as_protocol_error}

-- A chunk that passed the checks lies in the request, and is not empty.
abbrev pub Fitting : ℕ → Chunk → Type 0
Fitting len k = (0 < k.chunk_len) × (k.dest + k.chunk_len ≤ len)

pub parse_chunk-Yields :
    (len : ℕ) (seen : List ℕ) (body : Bytes) → Yields (Fitting len) (parse_chunk len seen body)
unfolding parse_chunk
parse_chunk-Yields len seen body =
    and_then-Yields Any (Fitting len) (unpack_from 8 body 8) _ (unpack_from-Yields 8 body 8)
      λ opcode _.
        and_then-Yields Any (Fitting len) (unpack_from 4 body 28) _ (unpack_from-Yields 4 body 28)
          λ dest _.
            and_then-Yields Any (Fitting len) (unpack_from 4 body 32) _
              (unpack_from-Yields 4 body 32)
              λ chunk_len _.
                if-Yields (Fitting len)
                  (is_seen dest seen || (chunk_len == 0) || ltb len (dest + chunk_len)) _ _
                  (λ _ e. cc)
                  (λ passed.
                    and_then-Yields Any (Fitting len)
                      (aio_extra_len (opcode / 2 ^ 32) body chunk_len) _
                      (aio_extra_len-Yields (opcode / 2 ^ 32) body chunk_len)
                      (λ extra_len _. fitting (is_seen dest seen) dest chunk_len passed))
  where
    fitting :
        (b : Bool) (dest chunk_len : ℕ)
        → (b || (chunk_len == 0) || ltb len (dest + chunk_len)) ≡ false
        → (0 < chunk_len) × (dest + chunk_len ≤ len)
    fitting true dest chunk_len passed = absurd (cc)
    fitting false dest chunk_len passed = ground arith

pub protocol-Yields : {A : Type 0} (x : Result A) → Yields Any x → Yields Any (as_protocol_error x)
protocol-Yields (ok a) y = tt
protocol-Yields (err (value_error e)) y = λ q. cc
protocol-Yields (err (protocol_error e)) y = λ q. cc
protocol-Yields (err (connection_error e)) y = λ q. cc
protocol-Yields (err (not_implemented e)) y = λ q. cc
protocol-Yields (err buffer_read_only) y = λ q. cc
protocol-Yields (err (buffer_too_small m n)) y = λ q. cc
protocol-Yields (err no_vim_types) y = λ q. cc
protocol-Yields (err (runtime_error m n)) y = λ q. cc
protocol-Yields (err struct_error) y = λ q. cc
protocol-Yields (err os_error) y = λ q. cc
protocol-Yields (err external_error) y = λ q. cc
protocol-Yields (err out_of_fuel) y = absurd (y refl)
