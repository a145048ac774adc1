-- ===== src/Fastlz/RoundTrip.antt =====
-- The length prefix and the cap of `compress` and `decompress` (openvixdisklib/fastlz.py).
use open_vix_disk_lib.Prelude.{
  ℕ, ◌^◌, ◌≤◌, ◌<◌, ◌≡◌, ◌≢◌, refl, sym, ap, ◌∙◌, inl, inr, false, none, some, [], ◌∷◌, ◌++◌,
  append-nil, arith, ltb, length, Option-cases, le→ltb_false, drop-append_exact, length-append,
  if◌then◌else◌,
}
use open_vix_disk_lib.Error.{ok}
use open_vix_disk_lib.Struct.{Bytes, u32, pack, le}
use open_vix_disk_lib.Struct.Laws.{length-le, pack-Fits}
use open_vix_disk_lib.Fastlz.{
  Codec, IsLawful, prefix_size, strip_prefix, check_cap, compress, decompress,
}

-- If `decompress` returns bytes, they are no more than the cap, whatever the FastLZ module answers.
pub length-decompress :
    (lz : Codec) (bytes : Bytes) (maxout : ℕ) (out : Bytes)
    → decompress lz bytes maxout ≡ ok out
    → length out ≤ maxout
unfolding decompress pack
length-decompress lz [] maxout out h = cc
length-decompress lz (b ∷ bs) maxout out h = ground arith

pack_length : (n : ℕ) → n < 2 ^ 32 → pack (u32 n ∷ []) ≡ ok (le 4 n)
pack_length n h = pack-Fits (u32 n ∷ []) (h, tt) ∙ ap ok (append-nil (le 4 n))

strip_prefix_lem : (n : ℕ) (raw : Bytes) → strip_prefix (some (le 4 n ++ raw)) ≡ ok raw
unfolding strip_prefix
strip_prefix_lem n raw =
    let long : ltb (length (le 4 n ++ raw)) prefix_size ≡ false =
      le→ltb_false _ _ (omega (arith, length-append (le 4 n) raw, length-le 4 n)) in
    rw (long, drop-append_exact (le 4 n) raw prefix_size (length-le 4 n)) refl

decompress_lem :
    (lz : Codec) (raw out : Bytes)
    → raw ≢ []
    → length out < 2 ^ 32
    → lz.decompress (le 4 (length out) ++ raw) ≡ some out
    → decompress lz raw (length out) ≡ ok out
unfolding decompress
decompress_lem lz [] out ne small e = absurd (ne refl)
decompress_lem lz (b ∷ bs) out ne small e =
    rw
      (
        pack_length (length out) small,
        e,
        check_cap,
        le→ltb_false (length out) (length out) (omega arith),
      )
      refl

-- With a lawful FastLZ module, what `compress` returns for data shorter than 2^32 bytes, if it is
-- not empty, `decompress` with the length of the data as its cap turns back into the data.
pub decompress-compress :
    (lz : Codec) (bytes packed : Bytes)
    → IsLawful lz
    → length bytes < 2 ^ 32
    → compress lz bytes ≡ ok packed
    → packed ≢ []
    → decompress lz packed (length bytes) ≡ ok bytes
unfolding compress
decompress-compress lz bytes packed law small h ne =
    let level : ℕ = if ltb (length bytes) 65536 then 1 else 2 in
    elim (Option-cases (lz.compress bytes level)) [
      | inl fails ↦
          let h' : strip_prefix none ≡ ok packed = rw fails at h in unfold strip_prefix in cc
      | inr (w, e) ↦
          let (raw, form) = law.prefixed bytes level w e in
          let h' : strip_prefix (some w) ≡ ok packed = rw e at h in
          let same : raw ≡ packed = cc (strip_prefix_lem (length bytes) raw) in
          rw (← same) (
            decompress_lem lz raw bytes (λ z. ne (sym same ∙ z)) small
              (ap lz.decompress (sym form) ∙ law.inverse bytes level w e))
    ]

-- With a lawful FastLZ module, `compress` returns a result for all data of at least 16 bytes.
pub compress_accepts :
    (lz : Codec) (bytes : Bytes)
    → IsLawful lz
    → 16 ≤ length bytes
    → (packed : Bytes) × (compress lz bytes ≡ ok packed)
unfolding compress
compress_accepts lz bytes law long =
    let level : ℕ = if ltb (length bytes) 65536 then 1 else 2 in
    let (w, e) = law.accepts bytes level long in
    let (raw, form) = law.prefixed bytes level w e in
    (raw, rw (e, form) (strip_prefix_lem (length bytes) raw))
