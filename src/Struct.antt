-- ===== src/Struct.antt =====
-- Python's `struct` module, for the little-endian formats of unsigned integers that nfc_open.py and
-- fastlz.py use: "<I", "<Q" and sequences of them. "I" without "<" is native: four bytes, and
-- little-endian on the machines that the library supports.
pub mod Laws
use open_vix_disk_lib.Prelude.{
  ℕ, zero, suc, ◌+◌, ◌*◌, ◌/◌, ◌%◌, ◌^◌, List, [], ◌∷◌, ◌++◌, leb, ltb, length, take, drop,
  if◌then◌else◌,
}
use open_vix_disk_lib.Error.{Result, ok, err, struct_error, and_then}

abbrev pub Bytes : Type 0
Bytes = List ℕ

-- The `k` lowest bytes of a number, the lowest first, and back.
unfoldable pub le : ℕ → ℕ → Bytes
le zero v = []
le (suc k) v = (v % 256) ∷ le k (v / 256)

unfoldable pub un_le : Bytes → ℕ
un_le [] = 0
un_le (b ∷ bs) = b + 256 * un_le bs

-- An item of a format with its value: `I` or `Q`.
pub data Field : Type 0 where
  u32 u64 : ℕ → Field

abbrev pub width : Field → ℕ
width (u32 v) = 4
width (u64 v) = 8

abbrev pub value : Field → ℕ
value (u32 v) = v
value (u64 v) = v

abbrev pub size : List Field → ℕ
size [] = 0
size (f ∷ fs) = width f + size fs

-- `struct.pack` raises `struct.error` for a value out of its format's range.
unfoldable pub pack : List Field → Result Bytes
pack [] = ok []
pack (f ∷ fs) =
    if ltb (value f) (256 ^ width f)
    then and_then (pack fs) (λ rest. ok (le (width f) (value f) ++ rest))
    else err struct_error

-- `struct.unpack_from("<I", buf, offset)[0]` for `k` = 4, and `"<Q"` for `k` = 8.
unfoldable pub unpack_from : ℕ → Bytes → ℕ → Result ℕ
unpack_from k buf offset =
    if leb (offset + k) (length buf)
    then ok (un_le (take k (drop offset buf)))
    else err struct_error
