-- ===== src/Probe/Lines.antt =====
-- The lines of a trace (docs/probing_samples/vddk_aio_bufsize_probe.py) that read one connection,
-- and the bytes that the parser puts together from them.
use open_vix_disk_lib.Prelude.{
  ℕ, zero, suc, ◌+◌, ◌-◌, ◌*◌, ◌/◌, ◌%◌, ◌≤◌, ◌<◌, ◌≡◌, refl, ◌⊎◌, inl, inr, false, Option, none,
  some, List, [], ◌∷◌, ◌++◌, append-nil, append_assoc, arith, ltb, ◌==◌, ==_refl, length, All,
  if◌then◌else◌,
}
use open_vix_disk_lib.Struct.{Bytes}
use open_vix_disk_lib.Text.{Text}
use open_vix_disk_lib.Probe.{
  hex_value, escape, find_escapes, decode_strace_hex, extend_bucket, is_write, Traffic, add_call,
  read_lines,
}

-- What `strace -x` prints for bytes.
abbrev hex_char : ℕ → ℕ
hex_char n = if ltb n 10 then b'0' + n else b'a' + (n - 10)

abbrev pub escapes : Bytes → Text
escapes [] = []
escapes (b ∷ bs) = b'\\' ∷ b'x' ∷ hex_char (b / 16) ∷ hex_char (b % 16) ∷ escapes bs

hex_value-hex_char : (n : ℕ) → n < 16 → hex_value (hex_char n) ≡ some n
hex_value-hex_char n h = ground arith

escape_lem : (b : ℕ) → b < 256 → escape b'\\' b'x' (hex_char (b / 16)) (hex_char (b % 16)) ≡ some b
unfolding escape
escape_lem b h =
    let hi = hex_value-hex_char (b / 16) (omega arith) in
    let lo = hex_value-hex_char (b % 16) (omega arith) in
    let e : 16 * (b / 16) + b % 16 ≡ b = omega arith in rw (hi, lo, e) refl

find_escapes_lem :
    (fuel : ℕ) (bs : Bytes)
    → length (escapes bs) ≤ fuel
    → All (λ b. b < 256) bs
    → find_escapes fuel (escapes bs) ≡ bs
unfolding find_escapes
find_escapes_lem zero [] enough small = refl
find_escapes_lem zero (b ∷ bs) enough small = absurd (omega arith)
find_escapes_lem (suc fuel) [] enough small = refl
find_escapes_lem (suc fuel) (b ∷ bs) enough (h, small) =
    rw (find_escapes, escape_lem b h, find_escapes_lem fuel bs (omega arith) small) refl

pub decode_strace_hex-escapes :
    (bs : Bytes) → All (λ b. b < 256) bs → decode_strace_hex (escapes bs) ≡ bs
unfolding decode_strace_hex
decode_strace_hex-escapes bs small = find_escapes_lem (length (escapes bs)) bs (omega arith) small

-- Each line is one in which the search finds nothing, or a read of the connection `fd`; the pieces
-- that were read are the stream.
abbrev pub Traces :
    {Line : Type 0} → (Line → Option (Text × ℕ × Text)) → ℕ → List Line → Bytes → Type 0
Traces search fd [] stream = stream ≡ []
Traces search fd (line ∷ lines) stream =
    ((search line ≡ none) × Traces search fd lines stream)
    ⊎ ((op : Text) × (piece rest : Bytes) × (search line ≡ some (op, fd, escapes piece))
        × (is_write op ≡ false)
        × All (λ b. b < 256) piece
        × (stream ≡ piece ++ rest)
        × Traces search fd lines rest)

-- The one bucket that they fill; before the first byte there is none.
abbrev pub one_bucket : ℕ → Bytes → List (ℕ × Bytes)
one_bucket fd [] = []
one_bucket fd (b ∷ bs) = (fd, b ∷ bs) ∷ []

abbrev pub only_reads : ℕ → Bytes → Traffic
only_reads fd seen = record { writes = []; reads = one_bucket fd seen }

extend_one_bucket :
    (fd : ℕ) (seen : Bytes) (b : ℕ) (bs : Bytes)
    → extend_bucket fd (b ∷ bs) (one_bucket fd seen) ≡ one_bucket fd (seen ++ (b ∷ bs))
unfolding extend_bucket
extend_one_bucket fd [] b bs = refl
extend_one_bucket fd (x ∷ xs) b bs = rw (==_refl fd) refl

add_call_lem :
    (op : Text) (fd : ℕ) (seen piece : Bytes)
    → is_write op ≡ false
    → add_call op fd piece (only_reads fd seen) ≡ only_reads fd (seen ++ piece)
unfolding add_call
add_call_lem op fd seen [] w = rw (append-nil seen) refl
add_call_lem op fd seen (b ∷ bs) w =
    let some_ : (length (b ∷ bs) == 0) ≡ false = ground arith in
    rw (some_, w, extend_one_bucket fd seen b bs) refl

pub read_lines_lem :
    {Line : Type 0} (search : Line → Option (Text × ℕ × Text)) (fd : ℕ) (lines : List Line)
    (stream seen : Bytes)
    → Traces search fd lines stream
    → read_lines search lines (only_reads fd seen) ≡ only_reads fd (seen ++ stream)
unfolding read_lines
read_lines_lem search fd [] stream seen e = rw (e, append-nil seen) refl
read_lines_lem search fd (line ∷ lines) stream seen (inl (quiet, more)) =
    rw (read_lines, quiet) (read_lines_lem search fd lines stream seen more)
read_lines_lem search fd (line ∷ lines) stream seen
      (inr (op, piece, rest, found, w, small, e, more)) =
    let regroup = append_assoc seen piece rest in
    rw
      (
        read_lines,
        found,
        decode_strace_hex-escapes piece small,
        add_call_lem op fd seen piece w,
        e,
        ← regroup,
      )
      (read_lines_lem search fd lines rest (seen ++ piece) more)
