-- ===== src/Write/Fragments.antt =====
-- One fragment of `write` (openvixdisklib/nfc_open.py), and a server that reads it back.
use open_vix_disk_lib.Prelude.{
  ℕ, Bool, ◌+◌, ◌/◌, ◌%◌, ◌^◌, ◌≤◌, ◌<◌, ◌≡◌, refl, ◌⊎◌, inl, inr, ◌&&◌, not, [], ◌∷◌, ◌++◌, arith,
  ltb, leb, ◌==◌, length, length-append, take, drop, blit, All, if◌then◌else◌, Bool-cases,
}
use open_vix_disk_lib.Error.{Result, ok, err, and_then, struct_error}
use open_vix_disk_lib.Struct.{Bytes, unpack_from}
use open_vix_disk_lib.Struct.Laws.{Fits, layout, pack-Fits, length-layout}
use open_vix_disk_lib.Conn.Send.{CanSend, sendall_lem}
use open_vix_disk_lib.Fastlz.{Codec, IsLawful, compress, decompress}
use open_vix_disk_lib.Fastlz.RoundTrip.{compress_accepts}
use open_vix_disk_lib.AioMsg
use open_vix_disk_lib.Aio.{NfcDisk, nfc_aio_hdr_size, unpack_aio_hdr, nfc_compression_fastlz}
use open_vix_disk_lib.Aio.Frames.{IsU32, hdr_bytes, frame, length-hdr_bytes, pack_aio_hdr_lem}
use open_vix_disk_lib.Write.{Extra, raw, shrink, fragment_fields, choose_extra, send_fragment}

-- The write that a server is in: its operation id, the file handle, and the number of bytes.
pub record Expected : Type 0 where
  pub handle : ℕ
  pub op_id : ℕ
  pub total : ℕ

abbrev pub expected : NfcDisk → ℕ → ℕ → Expected
expected d op_id total = record { handle = d.handle; op_id = op_id; total = total }

-- A server of the protocol (docs/nfc_write.md): it takes a frame of that write, with the opcode 0 in the
-- low half and a fragment that lies in the write, and puts the chunk that it carries on the disk. What
-- is no such frame is an error.
abbrev pub unpack_extra : Codec → ℕ → Bytes → ℕ → Result Bytes
unpack_extra lz ctype extra chunk_len =
    if ctype == nfc_compression_fastlz then decompress lz extra chunk_len else ok extra

abbrev pub is_of_write : Expected → (handle opcode len frag_offset chunk_len : ℕ) → Bool
is_of_write q handle opcode len frag_offset chunk_len =
    (handle == q.handle)
    && (opcode % 2 ^ 32 == 0)
    && (len == q.total)
    && leb (frag_offset + chunk_len) len

abbrev pub store_payload : Codec → Expected → ℕ → Bytes → Bytes → Result Bytes
store_payload lz q size payload disk = and_then (unpack_from 8 payload 0) λ handle.
    and_then (unpack_from 8 payload 8) λ opcode. and_then (unpack_from 8 payload 16) λ disk_offset.
      and_then (unpack_from 4 payload 24) λ len. and_then (unpack_from 4 payload 28) λ frag_offset.
        and_then (unpack_from 4 payload 32) λ chunk_len.
          and_then (unpack_from 4 payload 36) λ extra_len.
            if is_of_write q handle opcode len frag_offset chunk_len
            then and_then
                (unpack_extra lz (opcode / 2 ^ 32) (take extra_len (drop size payload)) chunk_len)
                (λ chunk. ok (blit (disk_offset + frag_offset) chunk disk))
            else err struct_error

unfoldable pub store_frame : Codec → Expected → Bytes → Bytes → Result Bytes
store_frame lz q fr disk = and_then (unpack_aio_hdr (take nfc_aio_hdr_size fr)) λ h.
    if (h.msg_type == AioMsg.io) && (h.op_id == q.op_id)
    then store_payload lz q h.size (drop nfc_aio_hdr_size fr) disk
    else err struct_error

-- The extra of a chunk is the chunk, or it is what the chunk compresses to, and shorter.
abbrev pub Carries : Codec → Bytes → Extra → Type 0
Carries lz chunk x =
    (x ≡ raw chunk)
    ⊎ ((x.ctype ≡ nfc_compression_fastlz)
        × (compress lz chunk ≡ ok x.extra)
        × (0 < length x.extra)
        × (length x.extra < length chunk))

shrink-Carries :
    (lz : Codec) (chunk packed : Bytes)
    → compress lz chunk ≡ ok packed
    → Carries lz chunk (shrink chunk packed)
unfolding shrink
shrink-Carries lz chunk packed h =
    elim (Bool-cases (not (length packed == 0) && ltb (length packed) (length chunk))) [
      | inl yes' ↦ rw yes' (inr (refl, h, ground arith, ground arith))
      | inr no' ↦ rw no' (inl refl)
    ]

pub choose_extra_lem :
    (lz : Codec) (compression : ℕ) (chunk : Bytes)
    → IsLawful lz
    → (x : Extra) × (choose_extra lz compression chunk ≡ ok x) × Carries lz chunk x
unfolding choose_extra
choose_extra_lem lz compression chunk law =
    elim (Bool-cases ((compression == nfc_compression_fastlz) && leb 16 (length chunk))) [
      | inl pack_it ↦
          let (packed, e) = compress_accepts lz chunk law (ground arith) in
          (shrink chunk packed, rw (pack_it, e) refl, shrink-Carries lz chunk packed e)
      | inr keep ↦ (raw chunk, rw keep refl, inl refl)
    ]

pub Carries-length :
    (lz : Codec) (chunk : Bytes) (x : Extra)
    → Carries lz chunk x
    → (length x.extra ≤ length chunk) × (x.ctype ≤ 2)
Carries-length lz chunk x (inl e) = rw e (omega arith)
Carries-length lz chunk x (inr (c, _, _, l)) = omega arith

-- The frame of a fragment.
abbrev pub fragment_frame : NfcDisk → ℕ → ℕ → ℕ → ℕ → Bytes → Extra → Bytes
fragment_frame d op_id disk_offset len frag_offset chunk x =
    frame AioMsg.io op_id (layout (fragment_fields d disk_offset len frag_offset (length chunk) x))
      x.extra

pub length-fragment_frame :
    (d : NfcDisk) (op_id disk_offset len frag_offset : ℕ) (chunk : Bytes) (x : Extra)
    → length (fragment_frame d op_id disk_offset len frag_offset chunk x) ≡ 60 + length x.extra
length-fragment_frame d op_id disk_offset len frag_offset chunk x =
    let fields = fragment_fields d disk_offset len frag_offset (length chunk) x in
    let hdr = hdr_bytes AioMsg.io (length (layout fields)) op_id in
    omega (
      arith,
      length-append hdr (layout fields ++ x.extra),
      length-append (layout fields) x.extra,
      length-layout fields,
      length-hdr_bytes AioMsg.io (length (layout fields)) op_id,
    )

pub send_fragment_lem :
    (lz : Codec) (d : NfcDisk) (op_id disk_offset len frag_offset : ℕ) (chunk : Bytes) (x : Extra)
    → CanSend d.sock
    → IsU32 op_id
    → choose_extra lz d.compression chunk ≡ ok x
    → All Fits (fragment_fields d disk_offset len frag_offset (length chunk) x)
    → send_fragment lz op_id disk_offset len frag_offset chunk d ≡ (
      ok tt,
      record d {
        sock = record d.sock {
          sent = d.sock.sent ++ (fragment_frame d op_id disk_offset len frag_offset chunk x ∷ []);
        };
      },
    )
unfolding send_fragment
send_fragment_lem lz d op_id disk_offset len frag_offset chunk x can ho e fits =
    let fields = fragment_fields d disk_offset len frag_offset (length chunk) x in
    let l : length (layout fields) ≡ 44 = length-layout fields in
    let hdr =
      pack_aio_hdr_lem AioMsg.io (length (layout fields)) op_id (omega arith) (omega arith) ho in
    rw
      (
        e,
        pack-Fits fields fits,
        hdr,
        sendall_lem d.sock (fragment_frame d op_id disk_offset len frag_offset chunk x) can,
      )
      refl
