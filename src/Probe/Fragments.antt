-- ===== src/Probe/Fragments.antt =====
-- A trace of the fragments of a read, as vddk_aio_bufsize_probe.py (docs/probing_samples) parses it.
use open_vix_disk_lib.Prelude.{
  ℕ, ◌%◌, ◌^◌, ◌≤◌, ◌≡◌, refl, ◌∙◌, Bool, true, false, Option, List, [], ◌∷◌, ◌++◌, append-nil,
  append_assoc, arith, leb, map, length, le→leb,
}
use open_vix_disk_lib.Error.{Result, ok, err, and_then}
use open_vix_disk_lib.Struct.{Bytes, unpack_from}
use open_vix_disk_lib.Text.{Text}
use open_vix_disk_lib.AioMsg
use open_vix_disk_lib.Aio.{nfc_aio_io_read}
use open_vix_disk_lib.Read.Replies.{Reply}
use open_vix_disk_lib.Probe.{
  Capture, collect_session, collect_read, walk, walk_buckets, parse_strace,
}
use open_vix_disk_lib.Probe.Walk.{Frame, traced, Readable, collect_all, walk_lem}
use open_vix_disk_lib.Probe.Lines.{Traces, one_bucket, read_lines_lem}

-- The reply announces a read, the offset and length of its fragment, and the length of its extra.
pub record Announces (f : Reply) : Type 0 where
  pub opcode : ℕ
  pub opcode_read : unpack_from 8 f.body 8 ≡ ok opcode
  pub is_read : opcode % 2 ^ 32 ≡ nfc_aio_io_read
  pub dest_read : unpack_from 4 f.body 28 ≡ ok f.dest
  pub length_read : unpack_from 4 f.body 32 ≡ ok (length f.bytes)
  pub extra_read : unpack_from 4 f.body 36 ≡ ok (length f.extra)
  pub long : 40 ≤ length f.body

abbrev pub AllAnnounce : List Reply → Type 0
AllAnnounce [] = Unit {0}
AllAnnounce (f ∷ fs) = Announces f × AllAnnounce fs

-- A reply as the trace has it, with what the trace kept of its extra.
abbrev pub kept_frames : ℕ → (Reply → Bytes) → List Reply → List Frame
kept_frames op_id kept [] = []
kept_frames op_id kept (f ∷ fs) =
    record { msg_type = AioMsg.io; op_id = op_id; payload = f.body; extra = kept f }
    ∷ kept_frames op_id kept fs

-- The row of a fragment: its offset, its length, and the length of its extra.
abbrev pub row : Reply → ℕ × ℕ × ℕ
row f = (f.dest, length f.bytes, length f.extra)

collect_replies :
    (op_id : ℕ) (kept : Reply → Bytes) (fs : List Reply) (k : Capture)
    → AllAnnounce fs
    → collect_all false true (kept_frames op_id kept fs) k
      ≡ ok (record k { io_reads = k.io_reads ++ map row fs })
unfolding collect_all collect_session collect_read
collect_replies op_id kept [] k a = rw (append-nil k.io_reads) refl
collect_replies op_id kept (f ∷ fs) k (a, more) =
    let long : leb 40 (length f.body) ≡ true = le→leb 40 (length f.body) a.long in
    let k' : Capture = record k { io_reads = k.io_reads ++ (row f ∷ []) } in
    rw (long, a.opcode_read, a.is_read, a.dest_read, a.length_read, a.extra_read)
      (rw (append_assoc k.io_reads (row f ∷ []) (map row fs)) at
        (collect_replies op_id kept fs k' more))

walk-one_bucket :
    (collect_open collect_io : Bool) (fd : ℕ) (stream : Bytes) (k : Capture)
    → walk_buckets collect_open collect_io (one_bucket fd stream) k
      ≡ walk (length stream) stream collect_open collect_io 0 k
unfolding walk_buckets walk
walk-one_bucket collect_open collect_io fd [] k = refl
walk-one_bucket collect_open collect_io fd (b ∷ bs) k =
    and_then-ok (walk (length (b ∷ bs)) (b ∷ bs) collect_open collect_io 0 k)
  where
    and_then-ok : (r : Result Capture) → and_then r ok ≡ r
    and_then-ok (ok k') = refl
    and_then-ok (err e) = refl

-- If the lines of a trace in which the search finds a call read one connection, and the bytes that
-- they print, cut into any pieces, are the replies to a read, each followed by what the trace kept
-- of its extra, in which the four bytes from no position spell the magic number, then
-- `parse_strace` returns no session payloads, and for each reply, in order, the offset and the
-- length of its fragment and the length of its extra. The replies have payloads of 40 bytes at
-- least that announce these numbers.
pub parse_strace_fragments :
    {Line : Type 0} (search : Line → Option (Text × ℕ × Text)) (fd op_id : ℕ) (lines : List Line)
    (fs : List Reply) (kept : Reply → Bytes)
    → AllAnnounce fs
    → Readable (kept_frames op_id kept fs)
    → Traces search fd lines (traced (kept_frames op_id kept fs))
    → parse_strace search lines ≡ ok (record { open_sessions = []; io_reads = map row fs })
unfolding parse_strace walk_buckets
parse_strace_fragments search fd op_id lines fs kept a good lines_are =
    let frames : List Frame = kept_frames op_id kept fs in
    let empty : Capture = record { open_sessions = []; io_reads = [] } in
    let got = read_lines_lem search fd lines (traced frames) [] lines_are in
    rw got (
      walk-one_bucket false true fd (traced frames) empty
      ∙ walk_lem false true (traced frames) (length (traced frames)) 0 empty [] frames (omega arith)
          tt good refl
      ∙ collect_replies op_id kept fs empty a)
