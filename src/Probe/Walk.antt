-- ===== src/Probe/Walk.antt =====
-- `walk` (docs/probing_samples/vddk_aio_bufsize_probe.py) over AIO frames with other bytes behind
-- them.
use open_vix_disk_lib.Prelude.{
  ℕ, zero, suc, ◌+◌, ◌≤◌, ◌<◌, ◌≡◌, ◌≢◌, refl, sym, ap, ◌∙◌, Bool, true, false, inl, inr, List, [],
  ◌∷◌, ◌++◌, append_assoc, arith, leb, ◌==◌, length, length-append, length-drop, take, drop,
  drop-drop, take-append_exact, drop-append_exact, le→leb, leb→le, Bool-cases,
}
use open_vix_disk_lib.Error.{Result, ok, err, and_then}
use open_vix_disk_lib.Struct.{Bytes, un_le, unpack_from}
use open_vix_disk_lib.Aio.{Header, unpack_words, nfc_aio_magic, nfc_aio_hdr_size}
use open_vix_disk_lib.Aio.Frames.{IsU32, hdr_bytes, frame, length-hdr_bytes, unpack_words_lem}
use open_vix_disk_lib.Probe.{Capture, collect_session, collect_read, walk}

-- A frame of the trace, and what follows it: the data that its size does not count, or what is left
-- of them in the trace.
pub record Frame : Type 0 where
  pub msg_type : ℕ
  pub op_id : ℕ
  pub payload : Bytes
  pub extra : Bytes

abbrev pub traced : List Frame → Bytes
traced [] = []
traced (f ∷ fs) = frame f.msg_type f.op_id f.payload f.extra ++ traced fs

-- At no position of `xs` do the four bytes from there spell the magic number.
abbrev pub Quiet : Bytes → Bytes → Type 0
Quiet [] behind = Unit {0}
Quiet (x ∷ xs) behind = (un_le (take 4 (x ∷ xs ++ behind)) ≢ nfc_aio_magic) × Quiet xs behind

abbrev pub Readable : List Frame → Type 0
Readable [] = Unit {0}
Readable (f ∷ fs) =
    IsU32 f.msg_type
    × IsU32 f.op_id
    × IsU32 (length f.payload)
    × Quiet f.extra (traced fs)
    × Readable fs

-- What each frame adds.
abbrev hdr_of : Frame → Header
hdr_of f = record {
  magic = nfc_aio_magic;
  msg_type = f.msg_type;
  size = length f.payload;
  op_id = f.op_id;
}

abbrev collect : Bool → Bool → Frame → Capture → Result Capture
collect collect_open collect_io f k =
    collect_read collect_io (hdr_of f) f.payload
      (collect_session collect_open (hdr_of f) f.payload k)

unfoldable pub collect_all : Bool → Bool → List Frame → Capture → Result Capture
collect_all collect_open collect_io [] k = ok k
collect_all collect_open collect_io (f ∷ fs) k =
    and_then (collect collect_open collect_io f k) (collect_all collect_open collect_io fs)

-- Sixteen bytes or more have four words, the first of them at the front.
pub words_of :
    (bs : Bytes)
    → nfc_aio_hdr_size ≤ length bs
    → (h : Header) × (unpack_words bs ≡ ok h) × (h.magic ≡ un_le (take 4 bs))
unfolding unpack_words unpack_from
words_of bs long =
    let w0 : leb (0 + 4) (length bs) ≡ true = le→leb (0 + 4) (length bs) (omega arith) in
    let w1 : leb (4 + 4) (length bs) ≡ true = le→leb (4 + 4) (length bs) (omega arith) in
    let w2 : leb (8 + 4) (length bs) ≡ true = le→leb (8 + 4) (length bs) (omega arith) in
    let w3 : leb (12 + 4) (length bs) ≡ true = le→leb (12 + 4) (length bs) (omega arith) in
    (
      record {
        magic = un_le (take 4 bs);
        msg_type = un_le (take 4 (drop 4 bs));
        size = un_le (take 4 (drop 8 bs));
        op_id = un_le (take 4 (drop 12 bs));
      },
      rw (w0, w1, w2, w3) refl,
      refl,
    )

module _ (collect_open collect_io : Bool) (buf : Bytes) where
  pub walk_end :
      (fuel offset : ℕ) (k : Capture)
      → leb (offset + nfc_aio_hdr_size) (length buf) ≡ false
      → walk fuel buf collect_open collect_io offset k ≡ ok k
  unfolding walk
  walk_end zero offset k short = rw short refl
  walk_end (suc fuel) offset k short = rw short refl

  walk_further :
      (fuel offset : ℕ) (k : Capture)
      → leb (offset + nfc_aio_hdr_size) (length buf) ≡ true
      → un_le (take 4 (drop offset buf)) ≢ nfc_aio_magic
      → walk (suc fuel) buf collect_open collect_io offset k
        ≡ walk fuel buf collect_open collect_io (offset + 1) k
  unfolding walk
  walk_further fuel offset k long ne =
      let room : nfc_aio_hdr_size ≤ length (drop offset buf) =
        omega
          (arith, length-drop offset buf, leb→le (offset + nfc_aio_hdr_size) (length buf) long) in
      let (h, e, same) = words_of (drop offset buf) room in
      let other : (h.magic == nfc_aio_magic) ≡ false = ground (arith, same) in
      rw (long, e, other) refl

  walk_collects :
      (fuel offset : ℕ) (k : Capture) (f : Frame) (rest : Bytes)
      → IsU32 f.msg_type
      → IsU32 f.op_id
      → IsU32 (length f.payload)
      → leb (offset + nfc_aio_hdr_size) (length buf) ≡ true
      → drop offset buf ≡ hdr_bytes f.msg_type (length f.payload) f.op_id ++ (f.payload ++ rest)
      → walk (suc fuel) buf collect_open collect_io offset k
        ≡ and_then
            (collect collect_open collect_io f k)
            (walk fuel buf collect_open collect_io (offset + (nfc_aio_hdr_size + length f.payload)))
  unfolding walk
  walk_collects fuel offset k f rest ht ho hs long here =
      let hdr : Bytes = hdr_bytes f.msg_type (length f.payload) f.op_id in
      let lh : length hdr ≡ nfc_aio_hdr_size =
        length-hdr_bytes f.msg_type (length f.payload) f.op_id in
      let e =
        unpack_words_lem nfc_aio_magic f.msg_type (length f.payload) f.op_id (f.payload ++ rest)
          (omega arith) ht hs ho in
      let behind : drop (offset + nfc_aio_hdr_size) buf ≡ f.payload ++ rest =
        sym (drop-drop offset nfc_aio_hdr_size buf)
        ∙ ap (drop nfc_aio_hdr_size) here
        ∙ drop-append_exact hdr (f.payload ++ rest) nfc_aio_hdr_size lh in
      let cut : take (length f.payload) (drop (offset + nfc_aio_hdr_size) buf) ≡ f.payload =
        ap (take (length f.payload)) behind
        ∙ take-append_exact f.payload rest (length f.payload) refl in
      rw (long, here, e, cut) refl

and_then_ext :
    {A B : Type 0} (r : Result A) (g h : A → Result B)
    → ((a : A) → g a ≡ h a)
    → and_then r g ≡ and_then r h
and_then_ext (ok a) g h same = same a
and_then_ext (err e) g h same = refl

-- Fewer bytes than a header has are no frames.
traced_short :
    (noise : Bytes) (fs : List Frame) → length (noise ++ traced fs) < nfc_aio_hdr_size → fs ≡ []
traced_short noise [] short = refl
traced_short noise (f ∷ fs) short =
    let hdr : Bytes = hdr_bytes f.msg_type (length f.payload) f.op_id in
    let lh : length hdr ≡ nfc_aio_hdr_size =
      length-hdr_bytes f.msg_type (length f.payload) f.op_id in
    absurd (
      omega (
        arith,
        length-append noise (traced (f ∷ fs)),
        length-append (hdr ++ (f.payload ++ f.extra)) (traced fs),
        length-append hdr (f.payload ++ f.extra),
      ))

module _ (collect_open collect_io : Bool) (buf : Bytes) where
  -- At the end of the trace nothing is left to collect.
  walk_short :
      (fuel offset : ℕ) (k : Capture) (noise : Bytes) (fs : List Frame)
      → length buf < offset + nfc_aio_hdr_size
      → drop offset buf ≡ noise ++ traced fs
      → walk fuel buf collect_open collect_io offset k ≡ collect_all collect_open collect_io fs k
  unfolding collect_all
  walk_short fuel offset k noise fs few here =
      let ld = length-drop offset buf in
      let lh : length (drop offset buf) ≡ length (noise ++ traced fs) = ap length here in
      let none_left : fs ≡ [] = traced_short noise fs (omega arith) in
      let short : leb (offset + nfc_aio_hdr_size) (length buf) ≡ false = ground arith in
      walk_end collect_open collect_io buf fuel offset k short ∙ rw none_left refl

  pub walk_lem :
      (fuel offset : ℕ) (k : Capture) (noise : Bytes) (fs : List Frame)
      → length buf ≤ offset + fuel
      → Quiet noise (traced fs)
      → Readable fs
      → drop offset buf ≡ noise ++ traced fs
      → walk fuel buf collect_open collect_io offset k ≡ collect_all collect_open collect_io fs k
  unfolding collect_all
  walk_lem zero offset k noise fs enough quiet good here =
      walk_short zero offset k noise fs (omega arith) here
  walk_lem (suc fuel) offset k [] [] enough quiet good here =
      let ld = length-drop offset buf in
      let lh : length (drop offset buf) ≡ 0 = ap length here in
      walk_short (suc fuel) offset k [] [] (omega arith) here
  walk_lem (suc fuel) offset k (x ∷ xs) fs enough quiet good here =
      elim (Bool-cases (leb (offset + nfc_aio_hdr_size) (length buf))) [
        | inr short ↦
            let few : length buf < offset + nfc_aio_hdr_size = ground (arith, short) in
            walk_short (suc fuel) offset k (x ∷ xs) fs few here
        | inl long ↦
            let (ne, quiet') = quiet in
            let there : un_le (take 4 (drop offset buf)) ≢ nfc_aio_magic = rw here ne in
            let next : drop (offset + 1) buf ≡ xs ++ traced fs =
              sym (drop-drop offset 1 buf) ∙ ap (drop 1) here in
            walk_further collect_open collect_io buf fuel offset k long there
            ∙ walk_lem fuel (offset + 1) k xs fs (omega arith) quiet' good next
      ]
  walk_lem (suc fuel) offset k [] (f ∷ fs) enough quiet (ht, ho, hs, quiet', good) here =
      let hdr : Bytes = hdr_bytes f.msg_type (length f.payload) f.op_id in
      let lh : length hdr ≡ nfc_aio_hdr_size =
        length-hdr_bytes f.msg_type (length f.payload) f.op_id in
      let behind : Bytes = f.extra ++ traced fs in
      let here' : drop offset buf ≡ hdr ++ (f.payload ++ behind) =
        here
        ∙ append_assoc hdr (f.payload ++ f.extra) (traced fs)
        ∙ ap (λ (t : Bytes). hdr ++ t) (append_assoc f.payload f.extra (traced fs)) in
      let ld = length-drop offset buf in
      let room : length (drop offset buf) ≡ length hdr + length (f.payload ++ behind) =
        ap length here' ∙ length-append hdr (f.payload ++ behind) in
      let long : leb (offset + nfc_aio_hdr_size) (length buf) ≡ true =
        le→leb (offset + nfc_aio_hdr_size) (length buf) (omega arith) in
      let next : drop (offset + (nfc_aio_hdr_size + length f.payload)) buf ≡ behind =
        sym (drop-drop offset (nfc_aio_hdr_size + length f.payload) buf)
        ∙ ap (drop (nfc_aio_hdr_size + length f.payload))
            (here' ∙ sym (append_assoc hdr f.payload behind))
        ∙ drop-append_exact (hdr ++ f.payload) behind (nfc_aio_hdr_size + length f.payload)
            (omega (arith, length-append hdr f.payload)) in
      walk_collects collect_open collect_io buf fuel offset k f behind ht ho hs long here'
      ∙ and_then_ext (collect collect_open collect_io f k) _ _ (λ k'.
        walk_lem fuel (offset + (nfc_aio_hdr_size + length f.payload)) k' f.extra fs (omega arith)
          quiet' good next)
