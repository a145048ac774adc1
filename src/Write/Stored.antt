-- ===== src/Write/Stored.antt =====
-- A server that stores what one fragment of `write` (openvixdisklib/nfc_open.py) carries.
use open_vix_disk_lib.Prelude.{
  ℕ, true, leb, le→leb, ◌≤◌, ◌%◌, ◌+◌, ◌*◌, ◌/◌, ◌^◌, ◌<◌, ◌≡◌, ◌≢◌, refl, inl, inr, List, [], ◌∷◌,
  ◌++◌, arith, ==_refl, length, take, drop, blit, All, take-append_exact, drop-append_exact,
  take_all,
}
use open_vix_disk_lib.Error.{ok}
use open_vix_disk_lib.Struct.{Bytes, Field}
use open_vix_disk_lib.Struct.Laws.{Fits, layout, length-layout, unpack-layout}
use open_vix_disk_lib.Fastlz.{Codec, IsLawful}
use open_vix_disk_lib.Fastlz.RoundTrip.{decompress-compress}
use open_vix_disk_lib.AioMsg
use open_vix_disk_lib.Aio.{NfcDisk, nfc_aio_io_write}
use open_vix_disk_lib.Aio.Frames.{
  IsU32, hdr_bytes, length-hdr_bytes, pack_aio_hdr_lem, unpack-pack_aio_hdr,
}
use open_vix_disk_lib.Write.{Extra, fragment_fields}
use open_vix_disk_lib.Write.Fragments.{
  expected, unpack_extra, store_payload, store_frame, Carries, fragment_frame,
}

not_nil : (xs : Bytes) → 0 < length xs → xs ≢ []
not_nil [] h e = absurd (omega arith)
not_nil (x ∷ xs) h e = cc

ctype_of_opcode : (c : ℕ) → (nfc_aio_io_write + c * 2 ^ 32) / 2 ^ 32 ≡ c
ctype_of_opcode c = omega arith

opcode_of_opcode : (c : ℕ) → (nfc_aio_io_write + c * 2 ^ 32) % 2 ^ 32 ≡ 0
opcode_of_opcode c = omega arith

unpack_extra_lem :
    (lz : Codec) (chunk : Bytes) (x : Extra)
    → IsLawful lz
    → IsU32 (length chunk)
    → Carries lz chunk x
    → unpack_extra lz x.ctype x.extra (length chunk) ≡ ok chunk
unpack_extra_lem lz chunk x law small (inl e) = rw e refl
unpack_extra_lem lz chunk x law small (inr (packed, e, some, _)) =
    rw packed (decompress-compress lz chunk x.extra law small e (not_nil x.extra some))

module _ (lz : Codec) (d : NfcDisk) (op_id disk_offset len frag_offset : ℕ) (chunk : Bytes)
    (x : Extra) (law : IsLawful lz) (carries : Carries lz chunk x)
    (fits : All Fits (fragment_fields d disk_offset len frag_offset (length chunk) x))
    (disk : Bytes) (room : frag_offset + length chunk ≤ len) where
  abbrev fields : List Field
  fields = fragment_fields d disk_offset len frag_offset (length chunk) x

  store_payload_lem :
      store_payload lz (expected d op_id len) 44 (layout fields ++ x.extra) disk
      ≡ ok (blit (disk_offset + frag_offset) chunk disk)
  store_payload_lem =
      let at0 = unpack-layout fields x.extra 0 fits (omega arith) in
      let at3 = unpack-layout fields x.extra 3 fits (omega arith) in
      let inside : leb (frag_offset + length chunk) len ≡ true =
        le→leb (frag_offset + length chunk) len room in
      let at1 = unpack-layout fields x.extra 1 fits (omega arith) in
      let at2 = unpack-layout fields x.extra 2 fits (omega arith) in
      let at4 = unpack-layout fields x.extra 4 fits (omega arith) in
      let at5 = unpack-layout fields x.extra 5 fits (omega arith) in
      let at6 = unpack-layout fields x.extra 6 fits (omega arith) in
      let small : IsU32 (length chunk) = fits.1.1.1.1.1.0 in
      let body : drop 44 (layout fields ++ x.extra) ≡ x.extra =
        drop-append_exact (layout fields) x.extra 44 (length-layout fields) in
      let all : take (length x.extra) x.extra ≡ x.extra =
        take_all (length x.extra) x.extra (omega arith) in
      rw
        (
          at0,
          at1,
          at2,
          at3,
          at4,
          at5,
          at6,
          ==_refl d.handle,
          opcode_of_opcode x.ctype,
          ==_refl len,
          inside,
          body,
          all,
          ctype_of_opcode x.ctype,
          unpack_extra_lem lz chunk x law small carries,
        )
        refl

  pub store_frame_lem :
      IsU32 op_id
      → store_frame lz
          (expected d op_id len)
          (fragment_frame d op_id disk_offset len frag_offset chunk x)
          disk
        ≡ ok (blit (disk_offset + frag_offset) chunk disk)
  unfolding store_frame
  store_frame_lem ho =
      let l : length (layout fields) ≡ 44 = length-layout fields in
      let hdr : Bytes = hdr_bytes AioMsg.io (length (layout fields)) op_id in
      let rest : Bytes = layout fields ++ x.extra in
      let front =
        take-append_exact hdr rest 16 (length-hdr_bytes AioMsg.io (length (layout fields)) op_id) in
      let back =
        drop-append_exact hdr rest 16 (length-hdr_bytes AioMsg.io (length (layout fields)) op_id) in
      let packed =
        pack_aio_hdr_lem AioMsg.io (length (layout fields)) op_id (omega arith) (omega arith) ho in
      let h = unpack-pack_aio_hdr AioMsg.io (length (layout fields)) op_id hdr packed in
      rw (front, back, h, ==_refl op_id, l) store_payload_lem
