-- ===== src/Probe/Total.antt =====
-- The parser (docs/probing_samples/vddk_aio_bufsize_probe.py) on any bytes and any lines: it ends,
-- and raises nothing.
use open_vix_disk_lib.Prelude.{
  ℕ, zero, suc, ◌+◌, ◌%◌, ◌^◌, ◌≤◌, ◌≡◌, refl, Bool, true, false, ◌&&◌, Option, List, [], ◌∷◌,
  arith, leb, ◌==◌, not, length, length-drop, take, drop, le→leb, leb→le, if◌then◌else◌,
}
use open_vix_disk_lib.Error.{Result, ok, and_then}
use open_vix_disk_lib.Struct.{Bytes, un_le, unpack_from}
use open_vix_disk_lib.Text.{Text}
use open_vix_disk_lib.AioMsg
use open_vix_disk_lib.Aio.{Header, nfc_aio_magic, nfc_aio_hdr_size, nfc_aio_io_read, unpack_words}
use open_vix_disk_lib.Probe.{
  Capture, Traffic, collect_session, collect_read, walk, walk_buckets, read_lines, parse_strace,
}
use open_vix_disk_lib.Probe.Walk.{words_of, walk_end}

-- The computation returns.
abbrev pub Returns : {A : Type 0} → Result A → Type 0
Returns {A} r = (a : A) × (r ≡ ok a)

pub and_then-Returns :
    {A B : Type 0} (r : Result A) (g : A → Result B)
    → Returns r
    → ((a : A) → Returns (g a))
    → Returns (and_then r g)
and_then-Returns r g (a, e) more = let (b, e') = more a in (b, rw (e, e') refl)

unpack_from-Returns :
    (k : ℕ) (bs : Bytes) (i : ℕ) → i + k ≤ length bs → Returns (unpack_from k bs i)
unfolding unpack_from
unpack_from-Returns k bs i h = (un_le (take k (drop i bs)), rw (le→leb (i + k) (length bs) h) refl)

if-Returns :
    {A : Type 0} (b : Bool) (x y : Result A)
    → (b ≡ true → Returns x)
    → Returns y
    → Returns (if b then x else y)
if-Returns true x y hx hy = hx refl
if-Returns false x y hx hy = hy

collect_read-Returns :
    (collect_io : Bool) (h : Header) (payload : Bytes) (k : Capture)
    → Returns (collect_read collect_io h payload k)
unfolding collect_read
collect_read-Returns collect_io h payload k =
    if-Returns (collect_io && (h.msg_type == AioMsg.io) && leb 40 (length payload)) _ _
      (λ long.
        let room : 40 ≤ length payload = ground (arith, long) in
        and_then-Returns (unpack_from 8 payload 8) _ (unpack_from-Returns 8 payload 8 (omega arith))
          (λ opcode.
            if-Returns (opcode % 2 ^ 32 == nfc_aio_io_read) _ _
              (λ _.
                and_then-Returns (unpack_from 4 payload 28) _
                  (unpack_from-Returns 4 payload 28 (omega arith))
                  (λ dest.
                    and_then-Returns (unpack_from 4 payload 32) _
                      (unpack_from-Returns 4 payload 32 (omega arith))
                      (λ n.
                        and_then-Returns (unpack_from 4 payload 36) _
                          (unpack_from-Returns 4 payload 36 (omega arith))
                          (λ extra_len. (_, refl)))))
              (k, refl)))
      (k, refl)

module _ (collect_open collect_io : Bool) (buf : Bytes) where
  walk-Returns :
      (fuel offset : ℕ) (k : Capture)
      → length buf ≤ offset + fuel
      → Returns (walk fuel buf collect_open collect_io offset k)
  unfolding walk
  walk-Returns zero offset k enough =
      let short : leb (offset + nfc_aio_hdr_size) (length buf) ≡ false = ground arith in
      (k, walk_end collect_open collect_io buf zero offset k short)
  walk-Returns (suc fuel) offset k enough =
      if-Returns (leb (offset + nfc_aio_hdr_size) (length buf)) _ _
        (λ long.
          let room : nfc_aio_hdr_size ≤ length (drop offset buf) =
            omega (
              arith,
              length-drop offset buf,
              leb→le (offset + nfc_aio_hdr_size) (length buf) long,
            ) in
          let (h0, e, _) = words_of (drop offset buf) room in
          and_then-Returns (unpack_words (drop offset buf)) _ (h0, e)
            (λ h.
              if-Returns (not (h.magic == nfc_aio_magic)) _ _
                (λ _. walk-Returns fuel (offset + 1) k (omega arith))
                (and_then-Returns
                  (collect_read collect_io h (take h.size (drop (offset + nfc_aio_hdr_size) buf)) (
                    collect_session collect_open h
                      (take h.size (drop (offset + nfc_aio_hdr_size) buf)) k))
                  _ (collect_read-Returns collect_io h _ _)
                  (λ k'.
                    walk-Returns fuel (offset + (nfc_aio_hdr_size + h.size)) k' (omega arith)))))
        (k, refl)

walk_buckets-Returns :
    (collect_open collect_io : Bool) (bs : List (ℕ × Bytes)) (k : Capture)
    → Returns (walk_buckets collect_open collect_io bs k)
unfolding walk_buckets
walk_buckets-Returns collect_open collect_io [] k = (k, refl)
walk_buckets-Returns collect_open collect_io ((fd, buf) ∷ bs) k =
    and_then-Returns (walk (length buf) buf collect_open collect_io 0 k) _
      (walk-Returns collect_open collect_io buf (length buf) 0 k (omega arith))
      (walk_buckets-Returns collect_open collect_io bs)

-- For any lines, and whatever the search finds in them, `parse_strace` ends within its rounds and
-- raises nothing.
pub parse_strace-Returns :
    {Line : Type 0} (search : Line → Option (Text × ℕ × Text)) (lines : List Line)
    → Returns (parse_strace search lines)
unfolding parse_strace
parse_strace-Returns search lines =
    let t : Traffic = read_lines search lines (record { writes = []; reads = [] }) in
    and_then-Returns
      (walk_buckets true false t.writes (record { open_sessions = []; io_reads = [] })) _
      (walk_buckets-Returns true false t.writes (record { open_sessions = []; io_reads = [] }))
      (walk_buckets-Returns false true t.reads)
