-- ===== src/Read/Unpacked.antt =====
-- What a client does with the packed extras of `readinto` (openvixdisklib/nfc_open.py): it cuts them by
-- the table, decompresses each, and places it.
use open_vix_disk_lib.Prelude.{
  ℕ, ◌+◌, ◌*◌, ◌≤◌, ◌≡◌, refl, ap, ◌∙◌, inl, inr, true, false, List, [], ◌∷◌, ◌++◌, append_assoc,
  arith, ◌==◌, length, take, drop, drop-drop, take-append_exact, drop-append_exact, blit,
  blit_front, if◌then◌else◌,
}
use open_vix_disk_lib.Error.{Result, ok, and_then}
use open_vix_disk_lib.Struct.{Bytes}
use open_vix_disk_lib.Conn.Receive.{Delivers}
use open_vix_disk_lib.Fastlz.{Codec, decompress}
use open_vix_disk_lib.Aio.{NfcDisk, nfc_compression_fastlz}
use open_vix_disk_lib.Read.Fragment.{ReadFragment, ReadResult, Buffer}
use open_vix_disk_lib.Read.{readinto}
use open_vix_disk_lib.Read.Replies.{Reply, Describes}
use open_vix_disk_lib.Read.Reassembly.{
  replies, placed, total, wire_total, Accepted, CanRead, readinto-replies,
}
use open_vix_disk_lib.Read.Packed.{packed, entry, table, length-packed, readinto_packs}

module _ (lz : Codec) where
  unfoldable pub unpack_entry : ReadFragment → Bytes → Result Bytes
  unpack_entry g buf =
      let extra = take g.length (drop g.offset buf) in
      if g.compression_type == nfc_compression_fastlz
      then decompress lz extra g.uncompressed_length
      else ok extra

  -- The entries one after the other, from the packed buffer into another.
  unfoldable pub unpack_all : List ReadFragment → Bytes → Bytes → Result Bytes
  unfolding unpack_entry
  unpack_all [] buf target = ok target
  unpack_all (g ∷ gs) buf target =
      and_then (unpack_entry g buf) (λ bytes. unpack_all gs buf (blit g.dest bytes target))

  unpack_entry_lem :
      (f : Reply) (v : Describes lz f) (offset : ℕ) (buf later : Bytes)
      → drop offset buf ≡ f.extra ++ later
      → unpack_entry (entry lz f v offset) buf ≡ ok f.bytes
  unfolding unpack_entry
  unpack_entry_lem f v offset buf later e =
      let cut = take-append_exact f.extra later (length f.extra) refl in
      elim v.form [
        | inl (raw, same) ↦ rw (raw, e, cut) (ap ok same)
        | inr (compressed, _, _, dec) ↦ rw (compressed, e, cut) dec
      ]

  unpack_all_lem :
      (len : ℕ) (seen : List ℕ) (offset : ℕ) (fs : List Reply) (acc : Accepted lz len seen fs)
      (buf later target : Bytes)
      → drop offset buf ≡ packed fs ++ later
      → unpack_all (table lz len seen offset fs acc) buf target ≡ ok (placed fs target)
  unfolding unpack_all
  unpack_all_lem len seen offset [] acc buf later target e = refl
  unpack_all_lem len seen offset (f ∷ fs) (v, _, _, _, more) buf later target e =
      let e' : drop offset buf ≡ f.extra ++ (packed fs ++ later) =
        e ∙ append_assoc f.extra (packed fs) later in
      let next : drop (offset + length f.extra) buf ≡ packed fs ++ later =
        rw (← drop-drop offset (length f.extra) buf, e')
          (drop-append_exact f.extra (packed fs ++ later) (length f.extra) refl) in
      rw (unpack_entry_lem f v offset buf (packed fs ++ later) e') (
        unpack_all_lem len (f.dest ∷ seen) (offset + length f.extra) fs more buf later
          (blit f.dest f.bytes target) next)

  -- What unpacking makes of the outcome of a read, over the buffer as it was.
  abbrev pub Unpacks : Result ReadResult × NfcDisk × Buffer → Bytes → Bytes → Type 0
  Unpacks r target bytes =
      (v : ReadResult) × (r.0 ≡ ok v) × (unpack_all v.fragments r.2.bytes target ≡ ok bytes)

module _ (lz : Codec) (d : NfcDisk) (b : Buffer) (start_sector num_sectors : ℕ)
    (can : CanRead d b start_sector num_sectors) (fs : List Reply) (ys : Bytes) where
  abbrev len : ℕ
  len = num_sectors * d.sector_size

  -- On a call that can be sent, and for the same fragments of the server, which lie in the request,
  -- are not empty, have distinct offsets and together as many bytes as were asked for, and whose
  -- extras together are no longer than the request: a client that cuts the buffer of `readinto`
  -- with `skip_decompression` by the table of fragments that it returns, decompresses the FastLZ
  -- extras, and places each at its offset in the buffer as it was before, gets the buffer that
  -- `readinto` without `skip_decompression` fills.
  pub readinto_unpacked :
      Accepted lz len [] fs
      → total fs ≡ len
      → wire_total fs ≤ len
      → Delivers d.sock.incoming (replies d.op_id fs ++ ys)
      → Unpacks lz
          (readinto lz start_sector num_sectors b true d)
          b.bytes
          (readinto lz start_sector num_sectors b false d).2.bytes
  readinto_unpacked acc sum fits del =
      let (_, e, _) = readinto_packs lz d b start_sector num_sectors can fs ys acc sum fits del in
      let (_, e', _) = readinto-replies lz d b start_sector num_sectors can fs ys acc sum del in
      let front = blit_front (packed fs) b.bytes (omega (arith, length-packed fs, can.room)) in
      rw (e, e')
        (
          _,
          refl,
          unpack_all_lem lz len [] 0 fs acc (blit 0 (packed fs) b.bytes)
              (drop (length (packed fs)) b.bytes) b.bytes front,
        )
