-- ===== src/Probe.antt =====
-- The parser of docs/probing_samples/vddk_aio_bufsize_probe.py, which reads AIO frames out of a
-- trace of system calls. `syscall_re.search` is the section's parameter: it gives the call, the file
-- descriptor and the quoted text of a line that it finds one in.
pub mod Walk
pub mod Total
pub mod Lines
pub mod Fragments
use open_vix_disk_lib.Prelude.{
  ℕ, zero, suc, ◌+◌, ◌-◌, ◌*◌, ◌%◌, ◌^◌, Bool, true, false, ◌||◌, ◌&&◌, not, Option, none, some,
  List, [], ◌∷◌, ◌++◌, leb, ◌==◌, length, take, drop, text_eq, codes, if◌then◌else◌,
}
use open_vix_disk_lib.Error.{Result, ok, err, and_then, out_of_fuel}
use open_vix_disk_lib.Struct.{Bytes, unpack_from}
use open_vix_disk_lib.Text.{Text}
use open_vix_disk_lib.AioMsg
use open_vix_disk_lib.Aio.{Header, unpack_words, nfc_aio_magic, nfc_aio_hdr_size, nfc_aio_io_read}

-- The value of a character of `[0-9a-fA-F]`.
abbrev pub hex_value : ℕ → Option ℕ
hex_value c =
    if leb b'0' c && leb c b'9'
    then some (c - b'0')
    else if leb b'a' c && leb c b'f'
    then some (c - b'a' + 10)
    else if leb b'A' c && leb c b'F'
    then some (c - b'A' + 10)
    else none

-- A match of `\\x([0-9a-fA-F]{2})` at the front of the text.
unfoldable pub escape : ℕ → ℕ → ℕ → ℕ → Option ℕ
escape c0 c1 c2 c3 =
    if (c0 == b'\\') && (c1 == b'x')
    then elim (hex_value c2) [
      | none ↦ none
      | some h ↦ elim (hex_value c3) [ none ↦ none | some l ↦ some (16 * h + l) ]
    ]
    else none

-- `re.findall`: behind a match the search goes on behind it, and else one character further.
unfoldable pub find_escapes : ℕ → Text → Bytes
find_escapes zero text = []
find_escapes (suc fuel) (c0 ∷ c1 ∷ c2 ∷ c3 ∷ rest) =
    let found = find_escapes fuel rest in
    let later = find_escapes fuel (c1 ∷ c2 ∷ c3 ∷ rest) in
    elim (escape c0 c1 c2 c3) [ none ↦ later | some b ↦ b ∷ found ]
find_escapes (suc fuel) short = []

unfoldable pub decode_strace_hex : Text → Bytes
unfolding find_escapes
decode_strace_hex quoted = find_escapes (length quoted) quoted

-- The lists that `walk` appends to.
pub record Capture : Type 0 where
  pub open_sessions : List Bytes
  pub io_reads : List (ℕ × ℕ × ℕ)

unfoldable pub collect_session : Bool → Header → Bytes → Capture → Capture
collect_session collect_open h payload k =
    if collect_open && (h.msg_type == AioMsg.open_session) && leb 16 (length payload)
    then record k { open_sessions = k.open_sessions ++ (take 16 payload ∷ []) }
    else k

unfoldable pub collect_read : Bool → Header → Bytes → Capture → Result Capture
collect_read collect_io h payload k =
    if collect_io && (h.msg_type == AioMsg.io) && leb 40 (length payload)
    then and_then (unpack_from 8 payload 8) (λ opcode.
      if opcode % 2 ^ 32 == nfc_aio_io_read
      then and_then (unpack_from 4 payload 28) (λ dest.
        and_then (unpack_from 4 payload 32) (λ chunk_len.
          and_then (unpack_from 4 payload 36) (λ extra_len.
            ok (record k { io_reads = k.io_reads ++ ((dest, chunk_len, extra_len) ∷ []) }))))
      else ok k)
    else ok k

-- `while offset + _AIO_HDR <= len(buf)`. A round goes on by a byte at least.
unfoldable pub walk : ℕ → Bytes → Bool → Bool → ℕ → Capture → Result Capture
unfolding collect_session collect_read
walk zero buf collect_open collect_io offset k =
    if leb (offset + nfc_aio_hdr_size) (length buf) then err out_of_fuel else ok k
walk (suc fuel) buf collect_open collect_io offset k =
    let round = and_then (unpack_words (drop offset buf)) (λ h.
      let further = walk fuel buf collect_open collect_io (offset + 1) k in
      let payload = take h.size (drop (offset + nfc_aio_hdr_size) buf) in
      let collected =
        and_then (collect_read collect_io h payload (collect_session collect_open h payload k))
          (λ k'. walk fuel buf collect_open collect_io (offset + (nfc_aio_hdr_size + h.size)) k') in
      if not (h.magic == nfc_aio_magic) then further else collected) in
    if leb (offset + nfc_aio_hdr_size) (length buf) then round else ok k

-- The file descriptors with the bytes that went over them, in the order of their first call.
-- `bucket.setdefault(fd, bytearray()).extend(buf)`
unfoldable pub extend_bucket : ℕ → Bytes → List (ℕ × Bytes) → List (ℕ × Bytes)
extend_bucket fd buf [] = (fd, buf) ∷ []
extend_bucket fd buf ((n, seen) ∷ rest) =
    if n == fd then (n, seen ++ buf) ∷ rest else (n, seen) ∷ extend_bucket fd buf rest

pub record Traffic : Type 0 where
  pub writes : List (ℕ × Bytes)
  pub reads : List (ℕ × Bytes)

-- `op in ("write", "send")`
abbrev pub is_write : Text → Bool
is_write op = text_eq op (codes "write") || text_eq op (codes "send")

unfoldable pub add_call : Text → ℕ → Bytes → Traffic → Traffic
add_call op fd buf t =
    if length buf == 0
    then t
    else if is_write op
    then record t { writes = extend_bucket fd buf t.writes }
    else record t { reads = extend_bucket fd buf t.reads }

unfoldable pub walk_buckets : Bool → Bool → List (ℕ × Bytes) → Capture → Result Capture
walk_buckets collect_open collect_io [] k = ok k
walk_buckets collect_open collect_io ((fd, buf) ∷ rest) k =
    and_then (walk (length buf) buf collect_open collect_io 0 k)
      (walk_buckets collect_open collect_io rest)

module _ {Line : Type 0} (search : Line → Option (Text × ℕ × Text)) where
  unfoldable pub read_lines : List Line → Traffic → Traffic
  unfolding add_call
  read_lines [] t = t
  read_lines (line ∷ lines) t = elim (search line) [
    | none ↦ read_lines lines t
    | some (op, fd, quoted) ↦ read_lines lines (add_call op fd (decode_strace_hex quoted) t)
  ]

  unfoldable pub parse_strace : List Line → Result Capture
  unfolding read_lines walk_buckets
  parse_strace lines =
      let t = read_lines lines (record { writes = []; reads = [] }) in
      and_then (walk_buckets true false t.writes (record { open_sessions = []; io_reads = [] }))
        (walk_buckets false true t.reads)
