-- ===== src/Read/Contents.antt =====
-- Fragments that are cut from the contents of the disk, and the buffer that `readinto` fills
-- (openvixdisklib/nfc_open.py).
use open_vix_disk_lib.Prelude.{
  ℕ, zero, suc, ◌+◌, ◌-◌, ◌*◌, ◌≤◌, ◌<◌, ◌≡◌, refl, sym, ap, ◌∙◌, ◌⊎◌, inl, inr, some, false, List,
  [], ◌∷◌, ◌++◌, arith, ltb, length, length-append, length-drop, get_elem?, take, drop, drop_all,
  append-nil, blit, length-blit, get_elem?-blit_before, get_elem?-blit_after, get_elem?-blit_in,
  Bool-cases, ltb→lt, ltb_false→le,
}
use open_vix_disk_lib.Error.{ok}
use open_vix_disk_lib.Struct.{Bytes}
use open_vix_disk_lib.Conn.Receive.{Delivers}
use open_vix_disk_lib.Fastlz.{Codec}
use open_vix_disk_lib.Aio.{NfcDisk}
use open_vix_disk_lib.Read.Fragment.{Buffer}
use open_vix_disk_lib.Read.{readinto}
use open_vix_disk_lib.Read.Replies.{Reply}
use open_vix_disk_lib.Read.Reassembly.{
  replies, placed, total, wire_total, Accepted, CanRead, readinto-replies,
}

-- Each fragment is a slice of the contents.
abbrev pub Slices : Bytes → List Reply → Type 0
Slices contents [] = Unit {0}
Slices contents (f ∷ fs) =
    (take (length f.bytes) (drop f.dest contents) ≡ f.bytes) × Slices contents fs

-- Some fragment has the position `i`.
abbrev pub Covers : ℕ → List Reply → Type 0
Covers i [] = ⊥
Covers i (f ∷ fs) = ((f.dest ≤ i) × (i < f.dest + length f.bytes)) ⊎ Covers i fs

-- The fragments together are the contents: every one is a slice, and every position is in one.
pub record IsPartition (contents : Bytes) (fs : List Reply) : Type 0 where
  pub slices : Slices contents fs
  pub covered : (i : ℕ) → i < length contents → Covers i fs
  pub sum : total fs ≡ length contents

-- Lists that agree at each position are equal.
list_ext :
    (xs ys : Bytes) → length xs ≡ length ys → ((i : ℕ) → get_elem? xs i ≡ get_elem? ys i) → xs ≡ ys
list_ext [] [] l h = refl
list_ext [] (y ∷ ys) l h = absurd (omega arith)
list_ext (x ∷ xs) [] l h = absurd (omega arith)
list_ext (x ∷ xs) (y ∷ ys) l h =
    let e : some x ≡ some y = h 0 in cc (e, list_ext xs ys (omega arith) (λ i. h (suc i)))

get_elem?-take : (n : ℕ) (xs : Bytes) (k : ℕ) → k < n → get_elem? (take n xs) k ≡ get_elem? xs k
get_elem?-take zero xs k h = absurd (omega arith)
get_elem?-take (suc n) [] k h = refl
get_elem?-take (suc n) (x ∷ xs) zero h = refl
get_elem?-take (suc n) (x ∷ xs) (suc k) h = get_elem?-take n xs k (omega arith)

get_elem?-drop : (n : ℕ) (xs : Bytes) (k : ℕ) → get_elem? (drop n xs) k ≡ get_elem? xs (n + k)
get_elem?-drop zero xs k = ground arith
get_elem?-drop (suc n) [] k = ground arith
get_elem?-drop (suc n) (x ∷ xs) k = ground (arith, get_elem?-drop n xs k)

get_elem?-append_left :
    (xs ys : Bytes) (i : ℕ) → i < length xs → get_elem? (xs ++ ys) i ≡ get_elem? xs i
get_elem?-append_left [] ys i h = absurd (omega arith)
get_elem?-append_left (x ∷ xs) ys zero h = refl
get_elem?-append_left (x ∷ xs) ys (suc i) h = get_elem?-append_left xs ys i (omega arith)

get_elem?-append_right :
    (xs ys : Bytes) (k : ℕ) → get_elem? (xs ++ ys) (length xs + k) ≡ get_elem? ys k
get_elem?-append_right [] ys k = ground arith
get_elem?-append_right (x ∷ xs) ys k = ground (arith, get_elem?-append_right xs ys k)

length-placed : (fs : List Reply) (buf : Bytes) → length (placed fs buf) ≡ length buf
length-placed [] buf = refl
length-placed (f ∷ fs) buf =
    length-placed fs (blit f.dest f.bytes buf) ∙ length-blit f.dest f.bytes buf

abbrev Inside : ℕ → List Reply → Type 0
Inside len [] = Unit {0}
Inside len (f ∷ fs) = (f.dest + length f.bytes ≤ len) × Inside len fs

-- Past the request nothing is written.
placed_after :
    (fs : List Reply) (len : ℕ) (buf : Bytes) (i : ℕ)
    → Inside len fs
    → len ≤ i
    → get_elem? (placed fs buf) i ≡ get_elem? buf i
placed_after [] len buf i h le = refl
placed_after (f ∷ fs) len buf i (h, hs) le =
    placed_after fs len (blit f.dest f.bytes buf) i hs le
    ∙ get_elem?-blit_after f.dest f.bytes buf i (omega arith)

-- At a position of the contents, a fragment that has it writes the right byte, and the others leave
-- it alone.
blit_slice :
    (contents buf : Bytes) (f : Reply) (i : ℕ)
    → take (length f.bytes) (drop f.dest contents) ≡ f.bytes
    → f.dest + length f.bytes ≤ length buf
    → f.dest ≤ i
    → i < f.dest + length f.bytes
    → get_elem? (blit f.dest f.bytes buf) i ≡ get_elem? contents i
blit_slice contents buf f i slice room lo hi =
    let k : ℕ = i - f.dest in
    let e : f.dest + k ≡ i = omega arith in
    let written = get_elem?-blit_in f.dest f.bytes buf k (omega arith) room in
    let there : get_elem? f.bytes k ≡ get_elem? contents (f.dest + k) =
      ap (λ (t : Bytes). get_elem? t k) (sym slice)
      ∙ get_elem?-take (length f.bytes) (drop f.dest contents) k (omega arith)
      ∙ get_elem?-drop f.dest contents k in
    rw e at (written ∙ there)

blit_keeps :
    (contents buf : Bytes) (f : Reply) (i : ℕ)
    → take (length f.bytes) (drop f.dest contents) ≡ f.bytes
    → f.dest + length f.bytes ≤ length buf
    → get_elem? buf i ≡ get_elem? contents i
    → get_elem? (blit f.dest f.bytes buf) i ≡ get_elem? contents i
blit_keeps contents buf f i slice room h = elim (Bool-cases (ltb i f.dest)) [
  | inl lo ↦ get_elem?-blit_before f.dest f.bytes buf i (ltb→lt i f.dest lo) ∙ h
  | inr lo ↦ elim (Bool-cases (ltb i (f.dest + length f.bytes))) [
    | inl hi ↦
        blit_slice contents buf f i slice room (ltb_false→le i f.dest lo)
          (ltb→lt i (f.dest + length f.bytes) hi)
    | inr hi ↦
        get_elem?-blit_after f.dest f.bytes buf i (ltb_false→le i (f.dest + length f.bytes) hi) ∙ h
  ]
]

placed_at :
    (contents : Bytes) (len : ℕ) (fs : List Reply) (buf : Bytes) (i : ℕ)
    → Slices contents fs
    → Inside len fs
    → len ≤ length buf
    → Covers i fs ⊎ (get_elem? buf i ≡ get_elem? contents i)
    → get_elem? (placed fs buf) i ≡ get_elem? contents i
placed_at contents len [] buf i s h room (inl c) = absurd c
placed_at contents len [] buf i s h room (inr e) = e
placed_at contents len (f ∷ fs) buf i (s, ss) (h, hs) room c =
    let lb : length (blit f.dest f.bytes buf) ≡ length buf = length-blit f.dest f.bytes buf in
    placed_at contents len fs (blit f.dest f.bytes buf) i ss hs (omega arith) (next c)
  where
    next :
        Covers i (f ∷ fs) ⊎ (get_elem? buf i ≡ get_elem? contents i)
        → Covers i fs ⊎ (get_elem? (blit f.dest f.bytes buf) i ≡ get_elem? contents i)
    next (inl (inl (lo, hi))) = inr (blit_slice contents buf f i s (omega arith) lo hi)
    next (inl (inr c')) = inl c'
    next (inr e) = inr (blit_keeps contents buf f i s (omega arith) e)

pub Accepted-Inside :
    (lz : Codec) (len : ℕ) (seen : List ℕ) (fs : List Reply)
    → Accepted lz len seen fs
    → Inside len fs
Accepted-Inside lz len seen [] a = tt
Accepted-Inside lz len seen (f ∷ fs) (_, _, _, inside, more) =
    (inside, Accepted-Inside lz len (f.dest ∷ seen) fs more)

pub placed_contents :
    (contents : Bytes) (fs : List Reply) (buf : Bytes)
    → IsPartition contents fs
    → Inside (length contents) fs
    → length contents ≤ length buf
    → placed fs buf ≡ contents ++ drop (length contents) buf
placed_contents contents fs buf part inside room =
    list_ext (placed fs buf) (contents ++ drop n buf)
      (length-placed fs buf ∙ omega (arith, length-append contents (drop n buf), length-drop n buf))
      (λ i. elim (Bool-cases (ltb i n)) [
        | inl lo ↦
            placed_at contents n fs buf i part.slices inside room
              (inl (part.covered i (ltb→lt i n lo)))
            ∙ sym (get_elem?-append_left contents (drop n buf) i (ltb→lt i n lo))
        | inr hi ↦
            let le : n ≤ i = ltb_false→le i n hi in
            let e : n + (i - n) ≡ i = omega arith in
            let right : get_elem? (contents ++ drop n buf) (n + (i - n))
                ≡ get_elem? buf (n + (i - n)) =
              get_elem?-append_right contents (drop n buf) (i - n) ∙ get_elem?-drop n buf (i - n) in
            placed_after fs n buf i inside le ∙ sym (rw e at right)
      ])
  where
    n : ℕ
    n = length contents

-- The same, when the buffer is as long as the contents.
pub placed_whole :
    (lz : Codec) (contents : Bytes) (fs : List Reply) (buf : Bytes)
    → Accepted lz (length contents) [] fs
    → IsPartition contents fs
    → length buf ≡ length contents
    → placed fs buf ≡ contents
placed_whole lz contents fs buf acc part size =
    let inside = Accepted-Inside lz (length contents) [] fs acc in
    let nothing : drop (length contents) buf ≡ [] = drop_all (length contents) buf (omega arith) in
    placed_contents contents fs buf part inside (omega arith) ∙ rw nothing (append-nil contents)

-- A call of `readinto` that can be sent, without skipping decompression: if the server cuts the
-- contents of the sectors into fragments, raw or compressed, and sends them in any order, and the
-- network cuts the stream in any way, then the call returns the lengths of the contents and of the
-- extras, and the buffer holds the contents and behind them what it held before.
pub readinto_contents :
    (lz : Codec) (d : NfcDisk) (b : Buffer) (start_sector num_sectors : ℕ) (contents : Bytes)
    (fs : List Reply) (ys : Bytes)
    → CanRead d b start_sector num_sectors
    → length contents ≡ num_sectors * d.sector_size
    → Accepted lz (length contents) [] fs
    → IsPartition contents fs
    → Delivers d.sock.incoming (replies d.op_id fs ++ ys)
    → ((readinto lz start_sector num_sectors b false d).0
        ≡ ok (record {
          uncompressed_length = length contents;
          compressed_length = wire_total fs;
          fragments = [];
        }))
      × ((readinto lz start_sector num_sectors b false d).2.bytes
          ≡ contents ++ drop (length contents) b.bytes)
readinto_contents lz d b start_sector num_sectors contents fs ys can size acc part del =
    let (rest, e, _) =
      readinto-replies lz d b start_sector num_sectors can fs ys (rw size at acc) (part.sum ∙ size)
        del in
    let inside = Accepted-Inside lz (length contents) [] fs acc in
    let room : length contents ≤ length b.bytes = omega (arith, can.room) in
    (rw (e, size) refl, rw e (placed_contents contents fs b.bytes part inside room))
