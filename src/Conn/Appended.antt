-- ===== src/Conn/Appended.antt =====
-- The two loops that receive a number of bytes: `recvn` of nfc_write_probe.py (docs/probing_samples),
-- which appends to a growing buffer, and `_recvn` of nfc_open.py (openvixdisklib), which receives into
-- a view of one that is full of zeros.
use open_vix_disk_lib.Prelude.{
  ℕ, zero, suc, ◌+◌, ◌-◌, ◌≤◌, ◌<◌, ◌≡◌, refl, ap, ◌∙◌, false, inl, inr, [], ◌∷◌, ◌++◌, append-nil,
  arith, ltb, ◌==◌, length, length-append, length-replicate, replicate, drop, blit, blit_behind,
  Bool-cases, ltb→lt, ltb_false→le, if◌then◌else◌,
}
use open_vix_disk_lib.Error.{
  Error, Result, ok, err, protocol_error, connection_closed, out_of_fuel, runtime_error,
}
use open_vix_disk_lib.Exec.{proceed}
use open_vix_disk_lib.Struct.{Bytes}
use open_vix_disk_lib.Conn.{
  Conn, Target, recv, store_got, recv_into, recv_loop, recvn_into, take_buffer, recvn,
}
use open_vix_disk_lib.Conn.Any.{AtMost, recv-AtMost}
use open_vix_disk_lib.WriteProbe.{receive_rest, recvn_appended}

-- A buffer of `n` bytes of which the first are filled.
abbrev view : Bytes → ℕ → Bytes
view got n = got ++ replicate (n - length got) 0

drop-replicate : (k n : ℕ) → drop k (replicate {A = ℕ} n 0) ≡ replicate (n - k) 0
drop-replicate zero n = let e : n - 0 ≡ n = omega arith in rw e refl
drop-replicate (suc k) zero = let e : zero - suc k ≡ zero = omega arith in rw e refl
drop-replicate (suc k) (suc n) =
    let e : suc n - suc k ≡ n - k = omega arith in rw e (drop-replicate k n)

blit-view :
    (got more : Bytes) (n : ℕ)
    → length got + length more ≤ n
    → blit (length got) more (view got n) ≡ view (got ++ more) n
blit-view got more n h =
    let l = length-append got more in
    let e : n - length got - length more ≡ n - length (got ++ more) = omega arith in
    blit_behind got more (replicate (n - length got) 0)
      (omega (arith, length-replicate {A = ℕ} (n - length got) 0))
    ∙ ap (λ t. (got ++ more) ++ t)
        (drop-replicate (length more) (n - length got) ∙ ap (λ k. replicate k 0) e)

-- Both return the same bytes, or both find the end of the stream after the same number of bytes, or
-- both raise the same error; the socket is the same after both.
pub data Agrees (size : ℕ) : Result Bytes × Conn → Result Bytes × Conn → Type 0 where
  returns : (bs : Bytes) (c : Conn) → Agrees size (ok bs, c) (ok bs, c)
  ends :
      (k : ℕ) (c : Conn)
      → Agrees size
          (err (protocol_error (connection_closed size k)), c)
          (err (runtime_error k size), c)
  raises : (e : Error) (c : Conn) → Agrees size (err e, c) (err e, c)

abbrev At : ℕ → Bytes → Conn → Target
At size got c = record { conn = c; buf = view got size }

view_full : (got : Bytes) (size : ℕ) → size ≤ length got → view got size ≡ got
view_full got size h = let e : size - length got ≡ 0 = omega arith in rw (e, append-nil got) refl

module _ (size : ℕ) where
  loops_done :
      (fuel : ℕ) (got : Bytes) (c : Conn)
      → ltb (length got) size ≡ false
      → Agrees size
          (take_buffer (recv_loop fuel 0 size (length got) (At size got c)))
          (receive_rest fuel size got c)
  unfolding take_buffer recv_loop receive_rest
  loops_done zero got c full =
      rw (full, view_full got size (ltb_false→le (length got) size full)) (returns got c)
  loops_done (suc fuel) got c full =
      rw (full, view_full got size (ltb_false→le (length got) size full)) (returns got c)

  abbrev Loops : ℕ → Type 0
  Loops fuel =
      (got : Bytes) (c : Conn)
      → length got ≤ size
      → Agrees size (take_buffer (recv_loop fuel 0 size (length got) (At size got c)))
          (receive_rest fuel size got c)

  -- One round, for what `recv` gave.
  round-Agrees :
      (fuel : ℕ) (got : Bytes) (r : Result Bytes) (c : Conn)
      → Loops fuel
      → length got < size
      → AtMost (size - length got) r
      → Agrees size
          (take_buffer (
            proceed (store_got (length got) (view got size) (r, c)) (λ n t'.
              let rest = recv_loop fuel 0 size (length got + n) t' in
              if n == 0
              then (err (protocol_error (connection_closed size (length got))), t')
              else rest)))
          (proceed
            (r, c)
            (λ chunk c'.
              let rest = receive_rest fuel size (got ++ chunk) c' in
              if length chunk == 0 then (err (runtime_error (length got) size), c') else rest))
  unfolding take_buffer store_got AtMost
  round-Agrees fuel got (err e) c loops more few = raises e c
  round-Agrees fuel got (ok []) c loops more few = ends (length got) c
  round-Agrees fuel got (ok (x ∷ xs)) c loops more few =
      let some_ : (length (x ∷ xs) == 0) ≡ false = ground arith in
      let fits : length got + length (x ∷ xs) ≤ size = omega arith in
      let l : length (got ++ (x ∷ xs)) ≡ length got + length (x ∷ xs) =
        length-append got (x ∷ xs) in
      let next = loops (got ++ (x ∷ xs)) c (omega arith) in
      rw (some_, blit-view got (x ∷ xs) size fits, ← l) next

  all-Loops : (fuel : ℕ) → Loops fuel
  unfolding take_buffer recv_loop receive_rest recv_into
  all-Loops zero got c le = elim (Bool-cases (ltb (length got) size)) [
    | inr full ↦ loops_done zero got c full
    | inl more ↦ rw more (raises out_of_fuel c)
  ]
  all-Loops (suc fuel) got c le = elim (Bool-cases (ltb (length got) size)) [
    | inr full ↦ loops_done (suc fuel) got c full
    | inl more ↦
        let lt : length got < size = ltb→lt (length got) size more in
        let step =
          round-Agrees fuel got (recv (size - length got) c).0 (recv (size - length got) c).1
            (all-Loops fuel) lt (recv-AtMost (size - length got) c) in
        let z : 0 + length got ≡ length got = omega arith in rw (more, z) step
  ]

-- On every socket state and for every size, the `recvn` of nfc_write_probe.py, which appends what
-- it receives to a growing buffer, agrees with `_recvn`, which receives into a view of a full one:
-- both return the same bytes, or find the end of the stream after the same number of bytes, or
-- raise the same error, and the socket is the same after both.
pub recvn-Agrees : (size : ℕ) (c : Conn) → Agrees size (recvn size c) (recvn_appended size c)
unfolding recvn recvn_into recvn_appended
recvn-Agrees size c =
    let e : size - 0 ≡ size = omega arith in rw e at (all-Loops size size [] c (omega arith))
