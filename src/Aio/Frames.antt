-- ===== src/Aio/Frames.antt =====
-- The bytes of AIO frames, and `_pack_aio_hdr` with `_unpack_aio_hdr` (openvixdisklib/nfc_open.py).
use open_vix_disk_lib.Prelude.{
  ℕ, ◌^◌, ◌<◌, ◌≡◌, ◌≢◌, refl, sym, ap, ◌∙◌, false, List, [], ◌∷◌, ◌++◌, append-nil, arith, ◌==◌,
  length, All, if◌then◌else◌,
}
use open_vix_disk_lib.Error.{ok, err, protocol_error, bad_magic, aio_error}
use open_vix_disk_lib.Struct.{Bytes, Field, u32}
use open_vix_disk_lib.Struct.Laws.{
  layout, Fits, pack-Fits, pack-eq-ok, unpack-layout, length-layout,
}
use open_vix_disk_lib.AioMsg
use open_vix_disk_lib.Aio.{
  nfc_aio_magic, nfc_aio_hdr_size, pack_aio_hdr, unpack_words, check_magic, check_type,
  unpack_aio_hdr,
}

abbrev pub IsU32 : ℕ → Type 0
IsU32 n = n < 2 ^ 32

abbrev pub words : ℕ → ℕ → ℕ → ℕ → List Field
words m t s o = u32 m ∷ u32 t ∷ u32 s ∷ u32 o ∷ []

-- The sixteen bytes of a header, and a whole frame with its payload and extra.
abbrev pub hdr_bytes : ℕ → ℕ → ℕ → Bytes
hdr_bytes t s o = layout (u32 nfc_aio_magic ∷ u32 t ∷ u32 s ∷ u32 o ∷ [])

abbrev pub frame : ℕ → ℕ → Bytes → Bytes → Bytes
frame t o payload extra = hdr_bytes t (length payload) o ++ (payload ++ extra)

pub length-hdr_bytes : (t s o : ℕ) → length (hdr_bytes t s o) ≡ nfc_aio_hdr_size
length-hdr_bytes t s o = length-layout (words nfc_aio_magic t s o)

pub pack_aio_hdr_lem :
    (t s o : ℕ) → IsU32 t → IsU32 s → IsU32 o → pack_aio_hdr t s o ≡ ok (hdr_bytes t s o)
unfolding pack_aio_hdr
pack_aio_hdr_lem t s o ht hs ho = pack-Fits (words nfc_aio_magic t s o) (omega arith)

-- Four words and anything behind them.
pub unpack_words_lem :
    (m t s o : ℕ) (tail : Bytes)
    → IsU32 m
    → IsU32 t
    → IsU32 s
    → IsU32 o
    → unpack_words (layout (words m t s o) ++ tail)
      ≡ ok (record { magic = m; msg_type = t; size = s; op_id = o })
unfolding unpack_words
unpack_words_lem m t s o tail hm ht hs ho =
    let fits : All Fits (words m t s o) = omega arith in
    let at0 = unpack-layout (words m t s o) tail 0 fits (omega arith) in
    let at1 = unpack-layout (words m t s o) tail 1 fits (omega arith) in
    let at2 = unpack-layout (words m t s o) tail 2 fits (omega arith) in
    let at3 = unpack-layout (words m t s o) tail 3 fits (omega arith) in
    rw (at0, at1, at2, at3) refl

unpack_words-layout :
    (m t s o : ℕ)
    → IsU32 m
    → IsU32 t
    → IsU32 s
    → IsU32 o
    → unpack_words (layout (words m t s o))
      ≡ ok (record { magic = m; msg_type = t; size = s; op_id = o })
unpack_words-layout m t s o hm ht hs ho =
    let e = unpack_words_lem m t s o [] hm ht hs ho in
    ap unpack_words (sym (append-nil (layout (words m t s o)))) ∙ e

pub unpack_words-hdr_bytes :
    (t s o : ℕ)
    → IsU32 t
    → IsU32 s
    → IsU32 o
    → unpack_words (hdr_bytes t s o)
      ≡ ok (record { magic = nfc_aio_magic; msg_type = t; size = s; op_id = o })
unpack_words-hdr_bytes t s o ht hs ho =
    unpack_words-layout nfc_aio_magic t s o (omega arith) ht hs ho

-- If `_pack_aio_hdr` returns a header, then `_unpack_aio_hdr` reads from it the type, the size and
-- the operation id that were written, except for the type ERROR, for which it raises the error that
-- names the operation id and the size.
pub unpack-pack_aio_hdr :
    (t s o : ℕ) (hdr : Bytes)
    → pack_aio_hdr t s o ≡ ok hdr
    → unpack_aio_hdr hdr ≡ (
        if t == AioMsg.error
        then err (protocol_error (aio_error o s))
        else ok (record { magic = nfc_aio_magic; msg_type = t; size = s; op_id = o }))
unfolding pack_aio_hdr unpack_aio_hdr
unpack-pack_aio_hdr t s o hdr h =
    let (fits, same) = pack-eq-ok (words nfc_aio_magic t s o) h in
    rw (same, unpack_words-hdr_bytes t s o fits.1.0 fits.1.1.0 fits.1.1.1.0)
      (unfold check_magic check_type in refl)

-- `_unpack_aio_hdr` refuses a header of four 32-bit words whose first word is not the magic number,
-- whatever the other words are.
pub unpack_aio_hdr_foreign :
    (m t s o : ℕ)
    → IsU32 m
    → IsU32 t
    → IsU32 s
    → IsU32 o
    → m ≢ nfc_aio_magic
    → unpack_aio_hdr (layout (u32 m ∷ u32 t ∷ u32 s ∷ u32 o ∷ []))
      ≡ err (protocol_error (bad_magic m))
unfolding unpack_aio_hdr
unpack_aio_hdr_foreign m t s o hm ht hs ho ne =
    let other : (m == nfc_aio_magic) ≡ false = ground arith in
    rw (unpack_words-layout m t s o hm ht hs ho, check_magic, other) refl
