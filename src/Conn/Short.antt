-- ===== src/Conn/Short.antt =====
-- `_recvn` (openvixdisklib/nfc_open.py) on a stream that ends early.
use open_vix_disk_lib.Prelude.{
  ℕ, zero, suc, ◌+◌, ◌-◌, ◌≤◌, ◌<◌, ◌≡◌, refl, sym, ap, ◌∙◌, true, List, [], ◌∷◌, arith, leb,
  length, replicate, blit, length-append, le→leb,
}
use open_vix_disk_lib.Error.{Result, ok, err, Error, protocol_error, connection_closed}
use open_vix_disk_lib.Struct.{Bytes}
use open_vix_disk_lib.Conn.{
  Arrival, piece, failure, Conn, recv, recv_from, Target, store_got, recv_loop, recvn_into,
  take_buffer, recvn,
}
use open_vix_disk_lib.Conn.Receive.{piece_nonempty, stream, Delivers, recv_loop_round}
use open_vix_disk_lib.Conn.Ends.{recv_loop_step}

take_buffer_err :
    (r : Result (Unit {0})) (t : Target) {e : Error} → r ≡ err e → (take_buffer (r, t)).0 ≡ err e
unfolding take_buffer
take_buffer_err (ok u) t h = cc
take_buffer_err (err x) t h = cc

-- A stream of nonempty pieces with no bytes has no pieces.
Delivers-nil : (arrivals : List Arrival) → Delivers arrivals [] → arrivals ≡ []
Delivers-nil [] d = refl
Delivers-nil (piece [] ∷ rest) d = absurd d.pieces.0
Delivers-nil (piece (b ∷ bs) ∷ rest) d = absurd (cc (d.bytes))
Delivers-nil (failure ∷ rest) d = absurd d.pieces.0

recv_end : (c : Conn) (n : ℕ) → c.is_open ≡ true → c.incoming ≡ [] → recv n c ≡ (ok [], c)
unfolding recv
recv_end c n o e = rw (o, e, recv_from) refl

-- One `recv` on a stream that is too short gives a front of it, not empty.
recv_front :
    (c : Conn) (arrivals : List Arrival) (n : ℕ) (x : ℕ) (xs : Bytes)
    → c.incoming ≡ arrivals
    → c.is_open ≡ true
    → length (x ∷ xs) < n
    → Delivers arrivals (x ∷ xs)
    → (got : Bytes) × (more : Bytes) × (rest : List Arrival) × (recv n c
        ≡ (ok got, record c { incoming = rest }))
      × (0 < length got)
      × (length (x ∷ xs) ≡ length got + length more)
      × Delivers rest more
unfolding recv
recv_front c [] n x xs e o l d = absurd (cc (d.bytes))
recv_front c (failure ∷ rest) n x xs e o l d = absurd d.pieces.0
recv_front c (piece bs ∷ rest) n x xs e o l d =
    let sum : length bs + length (stream rest) ≡ length (x ∷ xs) =
      sym (length-append bs (stream rest)) ∙ ap length d.bytes in
    let fits : leb (length bs) n ≡ true = le→leb _ _ (omega arith) in
    (
      bs,
      stream rest,
      rest,
      rw (o, e, fits, recv_from) refl,
      piece_nonempty bs d.pieces.0,
      omega arith,
      record { pieces = d.pieces.1; bytes = refl },
    )

recv_loop_short :
    (fuel start n filled : ℕ) (t : Target) (xs : Bytes)
    → t.conn.is_open ≡ true
    → filled + length xs < n
    → n ≤ filled + fuel
    → Delivers t.conn.incoming xs
    → (recv_loop fuel start n filled t).0
      ≡ err (protocol_error (connection_closed n (filled + length xs)))
recv_loop_short zero start n filled t xs o l f d = absurd (omega arith)
recv_loop_short (suc fuel) start n filled t [] o l f d =
    let z : filled + 0 ≡ filled = omega arith in
    rw
      (
        recv_loop_step fuel start n filled t (omega arith),
        recv_end t.conn (n - filled) o (Delivers-nil _ d),
        z,
      )
      (unfold store_got in refl)
recv_loop_short (suc fuel) start n filled t (x ∷ xs) o l f d =
    let (got, more, rest, r, pos, sum, d') =
      recv_front t.conn t.conn.incoming (n - filled) x xs refl o (omega arith) d in
    let c : Conn = record t.conn { incoming = rest } in
    let t' : Target = record { conn = c; buf = blit (start + filled) got t.buf } in
    let e : filled + length (x ∷ xs) ≡ (filled + length got) + length more = omega arith in
    rw (recv_loop_round fuel start n filled t got c (omega arith) r pos, e)
      (recv_loop_short fuel start n (filled + length got) t' more o (omega arith) (omega arith) d')

-- If the peer of an open socket ends the stream after fewer bytes than are asked for, in any
-- nonempty pieces, then `_recvn` raises the protocol error that names how many bytes were needed
-- and how many came.
pub recvn_short :
    (size : ℕ) (c : Conn) (xs : Bytes)
    → c.is_open ≡ true
    → length xs < size
    → Delivers c.incoming xs
    → (recvn size c).0 ≡ err (protocol_error (connection_closed size (length xs)))
unfolding recvn
recvn_short size c xs o l d =
    let t : Target = record { conn = c; buf = replicate size 0 } in
    let z : 0 + length xs ≡ length xs = omega arith in
    take_buffer_err (recvn_into 0 size t).0 (recvn_into 0 size t).1 (
      unfold recvn_into in
      rw z at (recv_loop_short size 0 size 0 t xs o (omega arith) (omega arith) d))
