-- ===== src/Aio/Yields.antt =====
-- The pure code of AIO frames (openvixdisklib/nfc_open.py) and `struct`: no fuel is spent in it.
use open_vix_disk_lib.Prelude.{
  ℕ, ◌+◌, ◌^◌, inl, inr, Option, none, some, List, [], ◌∷◌, ◌++◌, leb, ltb, ◌==◌, length,
  Bool-cases,
}
use open_vix_disk_lib.Exec.Runs.{Yields, Any, and_then-Yields, if-Yields}
use open_vix_disk_lib.Struct.{Bytes, Field, u32, value, width, pack, unpack_from}
use open_vix_disk_lib.Fastlz.{Codec, check_cap, decompress}
use open_vix_disk_lib.AioMsg
use open_vix_disk_lib.Aio.{
  Header, check_magic, check_type, unpack_words, unpack_aio_hdr, aio_extra_len, nfc_aio_magic,
  nfc_compression_fastlz, nfc_compression_none, pack_aio_hdr,
}

pub unpack_from-Yields : (k : ℕ) (bs : Bytes) (i : ℕ) → Yields Any (unpack_from k bs i)
unfolding unpack_from
unpack_from-Yields k bs i = elim (Bool-cases (leb (i + k) (length bs))) [
  | inl fits ↦ rw fits tt
  | inr short ↦ rw short (λ e. cc)
]

pub pack-Yields : (fs : List Field) → Yields Any (pack fs)
unfolding pack
pack-Yields [] = tt
pack-Yields (f ∷ fs) =
    if-Yields Any (ltb (value f) (256 ^ width f)) _ _
      (λ _. and_then-Yields Any Any (pack fs) _ (pack-Yields fs) (λ _ _. tt)) (λ _ e. cc)

pub aio_extra_len-Yields :
    (ctype : ℕ) (body : Bytes) (chunk_len : ℕ) → Yields Any (aio_extra_len ctype body chunk_len)
unfolding aio_extra_len
aio_extra_len-Yields ctype body chunk_len =
    if-Yields Any (ctype == nfc_compression_fastlz) _ _
      (λ _.
        and_then-Yields Any Any (unpack_from 4 body 36) _ (unpack_from-Yields 4 body 36)
          (λ n _. if-Yields Any (ltb n 1) _ _ (λ _ e. cc) (λ _. tt)))
      (λ _. if-Yields Any (ctype == nfc_compression_none) _ _ (λ _. tt) (λ _ e. cc))

pub unpack_words-Yields : (hdr : Bytes) → Yields Any (unpack_words hdr)
unfolding unpack_words
unpack_words-Yields hdr =
    and_then-Yields Any Any (unpack_from 4 hdr 0) _ (unpack_from-Yields 4 hdr 0) λ _ _.
      and_then-Yields Any Any (unpack_from 4 hdr 4) _ (unpack_from-Yields 4 hdr 4) λ _ _.
        and_then-Yields Any Any (unpack_from 4 hdr 8) _ (unpack_from-Yields 4 hdr 8) λ _ _.
          and_then-Yields Any Any (unpack_from 4 hdr 12) _ (unpack_from-Yields 4 hdr 12) λ _ _. tt

pub check_magic-Yields : (h : Header) → Yields Any (check_magic h)
unfolding check_magic
check_magic-Yields h = if-Yields Any (h.magic == nfc_aio_magic) _ _ (λ _. tt) (λ _ e. cc)

pub check_type-Yields : (h : Header) → Yields Any (check_type h)
unfolding check_type
check_type-Yields h = if-Yields Any (h.msg_type == AioMsg.error) _ _ (λ _ e. cc) (λ _. tt)

pub unpack_aio_hdr-Yields : (hdr : Bytes) → Yields Any (unpack_aio_hdr hdr)
unfolding unpack_aio_hdr
unpack_aio_hdr-Yields hdr =
    and_then-Yields Any Any (unpack_words hdr) _ (unpack_words-Yields hdr) λ h _.
      and_then-Yields Any Any (check_magic h) _ (check_magic-Yields h) λ h' _. check_type-Yields h'

check_cap-Yields : (n : ℕ) (o : Option Bytes) → Yields Any (check_cap n o)
unfolding check_cap
check_cap-Yields n none = λ e. cc
check_cap-Yields n (some out) = if-Yields Any (ltb n (length out)) _ _ (λ _ e. cc) (λ _. tt)

pub decompress-Yields : (lz : Codec) (bs : Bytes) (n : ℕ) → Yields Any (decompress lz bs n)
unfolding decompress
decompress-Yields lz [] n = λ e. cc
decompress-Yields lz (b ∷ bs) n =
    and_then-Yields Any Any (pack (u32 n ∷ [])) _ (pack-Yields (u32 n ∷ []))
      (λ prefix _. check_cap-Yields n (lz.decompress (prefix ++ (b ∷ bs))))

pub pack_aio_hdr-Yields : (t n op_id : ℕ) → Yields Any (pack_aio_hdr t n op_id)
unfolding pack_aio_hdr
pack_aio_hdr-Yields t n op_id = pack-Yields _
