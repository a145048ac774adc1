-- ===== src/Tests/Traces.antt =====
-- A trace of two system calls that read one fragment.
use open_vix_disk_lib.Prelude.{
  ℕ, ◌+◌, ◌*◌, ◌^◌, ◌≡◌, refl, arith, inl, inr, Option, none, some, List, [], ◌∷◌, codes, take,
  drop, text_eq,
}
use open_vix_disk_lib.Error.{ok}
use open_vix_disk_lib.Struct.{Bytes, le, un_le, unpack_from}
use open_vix_disk_lib.Text.{Text}
use open_vix_disk_lib.Read.Replies.{Reply}
use open_vix_disk_lib.Probe.{parse_strace}
use open_vix_disk_lib.Probe.Walk.{traced, Readable}
use open_vix_disk_lib.Probe.Lines.{Traces, escapes}
use open_vix_disk_lib.Probe.Fragments.{Announces, kept_frames, parse_strace_fragments}
use open_vix_disk_lib.Probe.Total.{Returns, parse_strace-Returns}
use open_vix_disk_lib.Tests.Disk.{first_bytes, last_byte}

-- A line is what the search finds in it.
abbrev search : Option (Text × ℕ × Text) → Option (Text × ℕ × Text)
search line = line

-- Of each extra the trace has kept one byte.
abbrev kept : Reply → Bytes
kept f = take 1 f.extra

abbrev stream : Bytes
stream = traced (kept_frames 7 kept (first_bytes ∷ last_byte ∷ []))

abbrev lines : List (Option (Text × ℕ × Text))
lines =
    some (codes "read", 4, escapes (take 16 stream))
    ∷ none
    ∷ some (codes "recv", 4, escapes (drop 16 stream))
    ∷ []

first_bytes-Announces : Announces first_bytes
unfolding le un_le unpack_from
first_bytes-Announces = record {
  opcode = 1;
  opcode_read = refl;
  is_read = refl;
  dest_read = refl;
  length_read = refl;
  extra_read = refl;
  long = omega arith;
}

last_byte-Announces : Announces last_byte
unfolding le un_le unpack_from
last_byte-Announces = record {
  opcode = 1 + 2 * 2 ^ 32;
  opcode_read = refl;
  is_read = refl;
  dest_read = refl;
  length_read = refl;
  extra_read = refl;
  long = omega arith;
}

stream-Readable : Readable (kept_frames 7 kept (first_bytes ∷ last_byte ∷ []))
unfolding le un_le
stream-Readable = (
  omega arith,
  omega arith,
  omega arith,
  ((λ e. omega arith), tt),
  (omega arith, omega arith, omega arith, ((λ e. omega arith), tt), tt),
)

lines-Traces : Traces search 4 lines stream
unfolding le text_eq
lines-Traces = inr (
  codes "read",
  take 16 stream,
  drop 16 stream,
  refl,
  refl,
  omega arith,
  refl,
  inl (refl, inr (codes "recv", drop 16 stream, [], refl, refl, omega arith, refl, refl)),
)

parse_strace_fragments_example :
    parse_strace search lines
    ≡ ok (record { open_sessions = []; io_reads = (0, 3, 3) ∷ (3, 1, 1) ∷ [] })
parse_strace_fragments_example =
    parse_strace_fragments search 4 7 lines (first_bytes ∷ last_byte ∷ []) kept
      (first_bytes-Announces, (last_byte-Announces, tt)) stream-Readable lines-Traces

parse_strace-Returns_example : Returns (parse_strace search lines)
parse_strace-Returns_example = parse_strace-Returns search lines
