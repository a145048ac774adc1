-- ===== src/Authd/Lines.antt =====
-- The lines that `_readline` (openvixdisklib/nfc_auth.py) reads from authd.
use open_vix_disk_lib.Prelude.{
  ℕ, zero, suc, ◌+◌, ◌≤◌, ◌<◌, ◌≡◌, ◌≢◌, arith, inl, inr, true, [], ◌++◌, ltb, ◌==◌, length,
  length-append, Bool-cases, if◌then◌else◌, ltb_false→le,
}
use open_vix_disk_lib.Error.{
  Error, Result, ok, err, out_of_fuel, connection_error, authd_closed, oversized_response,
}
use open_vix_disk_lib.Exec.{proceed}
use open_vix_disk_lib.Struct.{Bytes}
use open_vix_disk_lib.Conn.{Conn, recv}
use open_vix_disk_lib.Conn.Ends.{recv-ne-out_of_fuel}
use open_vix_disk_lib.Authd.{max_line, ends_line, read_until_eol}

-- An outcome of the loop: no end of the fuel, and a result is a line of at most `max_line` bytes.
pub record LineEnds (x : Result Bytes) : Type 0 where
  pub ends : x ≢ err out_of_fuel
  pub line : (buf : Bytes) → x ≡ ok buf → (ends_line buf ≡ true) × (length buf ≤ max_line)

refused : (e : Error) → e ≢ out_of_fuel → LineEnds (err e)
refused e ne = record { ends = λ h. ne (cc); line = λ buf h. absurd (cc) }

read_line : (buf : Bytes) → ends_line buf ≡ true → length buf ≤ max_line → LineEnds (ok buf)
read_line buf e l = record {
  ends = λ h. cc;
  line = λ buf' h. let same : buf ≡ buf' = cc in rw (← same) (e, l);
}

-- A round with what `recv` returned.
read_round :
    (fuel : ℕ) (buf : Bytes)
    → ((buf' : Bytes) (c : Conn)
        → length buf < length buf'
        → length buf' ≤ max_line
        → LineEnds (read_until_eol fuel buf' c).0)
    → (x : Result Bytes) (c : Conn) → x ≢ err out_of_fuel
    → LineEnds
        (proceed
          (x, c)
          (λ chunk c'.
            let rest = read_until_eol fuel (buf ++ chunk) c' in
            if length chunk == 0
            then (err (connection_error authd_closed), c')
            else if ltb max_line (length (buf ++ chunk))
            then (err (connection_error oversized_response), c')
            else rest)).0
read_round fuel buf ih (err e) c ne = refused e (λ h. ne (cc))
read_round fuel buf ih (ok chunk) c ne = elim (Bool-cases (length chunk == 0)) [
  | inl none_left ↦ rw none_left (refused (connection_error authd_closed) (λ h. cc))
  | inr came ↦ elim (Bool-cases (ltb max_line (length (buf ++ chunk)))) [
    | inl long ↦ rw (came, long) (refused (connection_error oversized_response) (λ h. cc))
    | inr short ↦
        rw (came, short)
          (ih (buf ++ chunk) c (ground (arith, length-append buf chunk))
            (ltb_false→le max_line (length (buf ++ chunk)) short))
  ]
]

loop-LineEnds :
    (fuel : ℕ) (buf : Bytes) (c : Conn)
    → length buf ≤ max_line
    → max_line < length buf + fuel
    → LineEnds (read_until_eol fuel buf c).0
unfolding read_until_eol
loop-LineEnds zero buf c l f = absurd (omega arith)
loop-LineEnds (suc fuel) buf c l f = elim (Bool-cases (ends_line buf)) [
  | inl whole ↦ rw whole (read_line buf whole l)
  | inr part ↦ rw part (
      read_round fuel buf (λ buf' c' lt le. loop-LineEnds fuel buf' c' le (omega arith))
        (recv 1 c).0 (recv 1 c).1 (recv-ne-out_of_fuel 1 c))
]

-- On every socket state the loop of `_readline` ends: it does not exhaust its rounds, and what it
-- returns ends with a line feed and has at most 4096 bytes.
pub read_until_eol-LineEnds : (c : Conn) → LineEnds (read_until_eol (max_line + 1) [] c).0
read_until_eol-LineEnds c = loop-LineEnds (max_line + 1) [] c (omega arith) (omega arith)
