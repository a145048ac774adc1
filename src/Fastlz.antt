-- ===== src/Fastlz.antt =====
-- `compress` and `decompress` of openvixdisklib/fastlz.py. The pip module `fastlz` is a parameter.
pub mod RoundTrip
use open_vix_disk_lib.Prelude.{
  ℕ, ◌≤◌, ◌≡◌, ◌++◌, Option, none, some, List, [], ◌∷◌, ltb, length, drop, if◌then◌else◌,
}
use open_vix_disk_lib.Error.{
  Result, ok, err, and_then, value_error, fastlz_failed, fastlz_truncated, fastlz_empty,
  fastlz_over_cap,
}
use open_vix_disk_lib.Struct.{Bytes, u32, pack, le}

-- The pip module: `compress(data, level)` and `decompress(wrapped)`; `none` is `FastlzError`.
pub record Codec : Type 0 where
  pub compress : Bytes → ℕ → Option Bytes
  pub decompress : Bytes → Option Bytes

-- What the module documents: a compressed buffer begins with the length of the data as a native
-- `uint32`, and decompresses to the data; 16 bytes of data are enough to compress.
pub record IsLawful (lz : Codec) : Type 0 where
  pub prefixed :
      (source : Bytes) (level : ℕ) (w : Bytes)
      → lz.compress source level ≡ some w
      → (raw : Bytes) × (w ≡ le 4 (length source) ++ raw)
  pub inverse :
      (source : Bytes) (level : ℕ) (w : Bytes)
      → lz.compress source level ≡ some w
      → lz.decompress w ≡ some source
  pub accepts :
      (source : Bytes) (level : ℕ)
      → 16 ≤ length source
      → (w : Bytes) × (lz.compress source level ≡ some w)

abbrev pub prefix_size : ℕ
prefix_size = 4

unfoldable pub strip_prefix : Option Bytes → Result Bytes
strip_prefix none = err (value_error fastlz_failed)
strip_prefix (some wrapped) =
    if ltb (length wrapped) prefix_size
    then err (value_error fastlz_truncated)
    else ok (drop prefix_size wrapped)

unfoldable pub check_cap : ℕ → Option Bytes → Result Bytes
check_cap maxout none = err (value_error fastlz_failed)
check_cap maxout (some out) =
    if ltb maxout (length out)
    then err (value_error (fastlz_over_cap (length out) maxout))
    else ok out

-- `struct.error` is no `ValueError`.
decompress_some : Codec → Bytes → ℕ → Result Bytes
unfolding check_cap
decompress_some lz bytes maxout =
    and_then (pack (u32 maxout ∷ [])) (λ prefix. check_cap maxout (lz.decompress (prefix ++ bytes)))

module _ (lz : Codec) where
  unfoldable pub compress : Bytes → Result Bytes
  unfolding strip_prefix
  compress bytes =
      let level = if ltb (length bytes) 65536 then 1 else 2 in
      strip_prefix (lz.compress bytes level)

  unfoldable pub decompress : Bytes → ℕ → Result Bytes
  unfolding decompress_some
  decompress [] maxout = err (value_error fastlz_empty)
  decompress (b ∷ bs) maxout = decompress_some lz (b ∷ bs) maxout
