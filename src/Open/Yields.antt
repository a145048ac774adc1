-- ===== src/Open/Yields.antt =====
-- The encodings and checks of `open_disk` (openvixdisklib/nfc_open.py) on any input.
use open_vix_disk_lib.Prelude.{ℕ, ◌&&◌, not, [], ◌∷◌, ltb, leb, ◌==◌, length}
use open_vix_disk_lib.Exec.Runs.{Yields, Any, and_then-Yields, if-Yields}
use open_vix_disk_lib.Struct.{Bytes, unpack_from}
use open_vix_disk_lib.Text.{Text, encode_ascii, encode_utf8, utf8_char}
use open_vix_disk_lib.Aio.Yields.{unpack_from-Yields}
use open_vix_disk_lib.Open.{nfc_disk, parse_open_reply}

pub encode_ascii-Yields : (s : Text) → Yields Any (encode_ascii s)
unfolding encode_ascii
encode_ascii-Yields [] = tt
encode_ascii-Yields (c ∷ s) =
    if-Yields Any (ltb c 128) _ _
      (λ _. and_then-Yields Any Any (encode_ascii s) _ (encode_ascii-Yields s) (λ bs _. tt))
      (λ _ e. cc)

utf8_char-Yields : (c : ℕ) → Yields Any (utf8_char c)
unfolding utf8_char
utf8_char-Yields c =
    if-Yields Any (ltb c 0x80) _ _ (λ _. tt)
      λ _.
        if-Yields Any (ltb c 0x800) _ _ (λ _. tt)
          λ _.
            if-Yields Any (leb 0xd800 c && leb c 0xdfff) _ _ (λ _ e. cc)
              λ _. if-Yields Any (ltb c 0x10000) _ _ (λ _. tt) (λ _. tt)

pub encode_utf8-Yields : (s : Text) → Yields Any (encode_utf8 s)
unfolding encode_utf8
encode_utf8-Yields [] = tt
encode_utf8-Yields (c ∷ s) =
    and_then-Yields Any Any (utf8_char c) _ (utf8_char-Yields c)
      λ front _. and_then-Yields Any Any (encode_utf8 s) _ (encode_utf8-Yields s) λ rest _. tt

pub parse_open_reply-Yields : (body : Bytes) → Yields Any (parse_open_reply body)
unfolding parse_open_reply
parse_open_reply-Yields body =
    if-Yields Any (ltb (length body) 40) _ _ (λ _ e. cc)
      λ _.
        and_then-Yields Any Any (unpack_from 8 body 8) _ (unpack_from-Yields 8 body 8) λ handle _.
          and_then-Yields Any Any (unpack_from 4 body 16) _ (unpack_from-Yields 4 body 16)
            λ file_type _.
              and_then-Yields Any Any (unpack_from 4 body 20) _ (unpack_from-Yields 4 body 20)
                λ flags _.
                  and_then-Yields Any Any (unpack_from 4 body 36) _ (unpack_from-Yields 4 body 36)
                    λ sector_size _.
                      if-Yields Any (not (file_type == nfc_disk)) _ _ (λ _ e. cc) (λ _. tt)
