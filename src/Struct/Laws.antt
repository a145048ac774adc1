-- ===== src/Struct/Laws.antt =====
-- `pack` and `unpack_from` on the same fields.
use open_vix_disk_lib.Prelude.{
  ℕ, zero, suc, ◌+◌, ◌*◌, ◌/◌, ◌^◌, ◌<◌, ◌≡◌, refl, ap, ◌∙◌, inl, inr, List, [], ◌∷◌, ◌++◌,
  append_assoc, arith, ltb, length, length-append, All, Bool-cases, le→leb, lt→ltb,
  take-append_exact, drop-append_exact, ltb→lt,
}
use open_vix_disk_lib.Error.{Result, ok, err, struct_error, Result-cases}
use open_vix_disk_lib.Struct.{Bytes, le, un_le, Field, u32, width, value, size, pack, unpack_from}
use native.Mathlib.Nat.{pow-suc}

pub length-le : (k v : ℕ) → length (le k v) ≡ k
unfolding le
length-le zero v = refl
length-le (suc k) v = ap suc (length-le k (v / 256))

pub un_le-le : (k v : ℕ) → v < 256 ^ k → un_le (le k v) ≡ v
unfolding le un_le
un_le-le zero v h = omega arith
un_le-le (suc k) v h =
    let p : v < 256 ^ k * 256 = rw (pow-suc) at h in
    omega (arith, un_le-le k (v / 256) (omega arith))

abbrev pub Fits : Field → Type 0
Fits f = value f < 256 ^ width f

-- The bytes of fields that fit.
abbrev pub layout : List Field → Bytes
layout [] = []
layout (f ∷ fs) = le (width f) (value f) ++ layout fs

pub pack-Fits : (fs : List Field) → All Fits fs → pack fs ≡ ok (layout fs)
unfolding pack
pack-Fits [] h = refl
pack-Fits (f ∷ fs) h = rw (lt→ltb _ _ h.0) (rw (pack-Fits fs h.1) refl)

pub pack-eq-ok : (fs : List Field) {bs : Bytes} → pack fs ≡ ok bs → All Fits fs × (bs ≡ layout fs)
unfolding pack
pack-eq-ok [] h = (tt, ground arith)
pack-eq-ok (f ∷ fs) {bs} h = elim (Bool-cases (ltb (value f) (256 ^ width f))) [
  | inl fits ↦ elim (Result-cases (pack fs)) [
    | inl (rest, e) ↦
        let (all, same) = pack-eq-ok fs e in
        let h' : Path (Result Bytes) (ok (le (width f) (value f) ++ rest)) (ok bs) =
          rw (fits, e) at h in
        ((ltb→lt _ _ fits, all), cc)
    | inr (x, e) ↦ let h' : Path (Result Bytes) (err x) (ok bs) = rw (fits, e) at h in cc
  ]
  | inr wide ↦ let h' : Path (Result Bytes) (err struct_error) (ok bs) = rw wide at h in cc
]

pub length-layout : (fs : List Field) → length (layout fs) ≡ size fs
length-layout [] = refl
length-layout (f ∷ fs) = omega (
  arith,
  length-append (le (width f) (value f)) (layout fs),
  length-le (width f) (value f),
  length-layout fs,
)

-- Reading the bytes `mid` that stand behind `front`.
pub unpack_from_at :
    (k : ℕ) (front mid back : Bytes) (offset : ℕ)
    → length front ≡ offset
    → length mid ≡ k
    → unpack_from k (front ++ (mid ++ back)) offset ≡ ok (un_le mid)
unfolding unpack_from
unpack_from_at k front mid back offset hf hm =
    rw
      (le→leb (offset + k) (length (front ++ (mid ++ back)))
        (omega (arith, length-append front (mid ++ back), length-append mid back)))
      (rw (drop-append_exact front (mid ++ back) offset hf, take-append_exact mid back k hm) refl)

abbrev pub nth : List Field → ℕ → Field
nth [] i = u32 0
nth (f ∷ fs) zero = f
nth (f ∷ fs) (suc i) = nth fs i

abbrev pub offset_of : List Field → ℕ → ℕ
offset_of [] i = 0
offset_of (f ∷ fs) zero = 0
offset_of (f ∷ fs) (suc i) = width f + offset_of fs i

unpack-layout_behind :
    (front : Bytes) (fs : List Field) (tail : Bytes) (i : ℕ)
    → All Fits fs
    → i < length fs
    → unpack_from (width (nth fs i)) (front ++ (layout fs ++ tail)) (length front + offset_of fs i)
      ≡ ok (value (nth fs i))
unpack-layout_behind front [] tail i h lt = absurd (omega arith)
unpack-layout_behind front (f ∷ fs) tail zero h lt =
    rw (append_assoc (le (width f) (value f)) (layout fs) tail) (
      unpack_from_at (width f) front (le (width f) (value f)) (layout fs ++ tail) (length front + 0)
        (omega arith) (length-le (width f) (value f))
      ∙ ap ok (un_le-le (width f) (value f) h.0))
unpack-layout_behind front (f ∷ fs) tail (suc i) h lt =
    let head = le (width f) (value f) in
    let e : length (front ++ head) + offset_of fs i ≡ length front + (width f + offset_of fs i) =
      omega (arith, length-append front head, length-le (width f) (value f)) in
    rw (append_assoc head (layout fs) tail, ← append_assoc front head (layout fs ++ tail), ← e)
      (unpack-layout_behind (front ++ head) fs tail i h.1 (omega arith))

-- The `i`th field of packed bytes, at the offset that the fields before it take up.
pub unpack-layout :
    (fs : List Field) (tail : Bytes) (i : ℕ)
    → All Fits fs
    → i < length fs
    → unpack_from (width (nth fs i)) (layout fs ++ tail) (offset_of fs i) ≡ ok (value (nth fs i))
unpack-layout fs tail i h lt =
    let e : 0 + offset_of fs i ≡ offset_of fs i = omega arith in
    rw e at (unpack-layout_behind [] fs tail i h lt)
