-- ===== src/Conn/Ends.antt =====
-- `_recvn_into` and `_recvn` (openvixdisklib/nfc_open.py) on any input.
use open_vix_disk_lib.Prelude.{
  ℕ, zero, suc, ◌+◌, ◌-◌, ◌≤◌, ◌<◌, ◌≡◌, ◌≢◌, refl, sym, ap, ◌∙◌, inl, inr, true, false, List, [],
  ◌∷◌, arith, ltb, ◌==◌, length, replicate, blit, length-blit, length-replicate, Bool-cases,
  if◌then◌else◌, lt→ltb, ltb→lt, ltb_false→le,
}
use open_vix_disk_lib.Error.{
  Result, ok, err, protocol_error, os_error, out_of_fuel, connection_closed,
}
use open_vix_disk_lib.Exec.{proceed}
use open_vix_disk_lib.Struct.{Bytes}
use open_vix_disk_lib.Conn.{
  Arrival, piece, failure, Conn, recv, recv_from, Target, store_got, recv_into, recv_loop,
  recvn_into, take_buffer, recvn,
}
use open_vix_disk_lib.Conn.Receive.{recv_loop_full}

-- Receiving leaves alone what was sent and whether the socket is open.
pub record SameOut (c c' : Conn) : Type 0 where
  pub sent : c'.sent ≡ c.sent
  pub send_faults : c'.send_faults ≡ c.send_faults
  pub is_open : c'.is_open ≡ c.is_open

pub SameOut-refl : (c : Conn) → SameOut c c
SameOut-refl c = record { sent = refl; send_faults = refl; is_open = refl }

pub SameOut-trans : {c d e : Conn} → SameOut c d → SameOut d e → SameOut c e
SameOut-trans p q = record {
  sent = q.sent ∙ p.sent;
  send_faults = q.send_faults ∙ p.send_faults;
  is_open = q.is_open ∙ p.is_open;
}

recv_from-SameOut :
    (n : ℕ) (arrivals : List Arrival) (c : Conn) → SameOut c (recv_from n arrivals c).1
unfolding recv_from
recv_from-SameOut n [] c = SameOut-refl c
recv_from-SameOut n (failure ∷ rest) c = record { sent = refl; send_faults = refl; is_open = refl }
recv_from-SameOut n (piece bs ∷ rest) c = ground arith

pub recv-SameOut : (n : ℕ) (c : Conn) → SameOut c (recv n c).1
unfolding recv
recv-SameOut n c =
    elim c.is_open
      as (λ b. SameOut c (if b then recv_from n c.incoming c else (err os_error, c)).1) [
        | true ↦ recv_from-SameOut n c.incoming c
        | false ↦ SameOut-refl c
      ]

-- What a round does with the answer of `recv`.
pub recv_loop_step :
    (fuel start n filled : ℕ) (t : Target)
    → filled < n
    → recv_loop (suc fuel) start n filled t
      ≡ proceed (store_got (start + filled) t.buf (recv (n - filled) t.conn)) (λ got t'.
        let rest = recv_loop fuel start n (filled + got) t' in
        if got == 0 then (err (protocol_error (connection_closed n filled)), t') else rest)
unfolding recv_loop recv_into
recv_loop_step fuel start n filled t h = rw (lt→ltb filled n h) refl

-- What holds of every outcome of the loop: it is not the end of the fuel, the rest of the
-- connection is as it was, and the buffer has its length.
pub record Ends (t : Target) (r : Result (Unit {0}) × Target) : Type 0 where
  pub ends : r.0 ≢ err out_of_fuel
  pub same : SameOut t.conn r.1.conn
  pub length_buf : length r.1.buf ≡ length t.buf

recv_from-ne-out_of_fuel :
    (n : ℕ) (arrivals : List Arrival) (c : Conn) → (recv_from n arrivals c).0 ≢ err out_of_fuel
unfolding recv_from
recv_from-ne-out_of_fuel n [] c = λ e. cc
recv_from-ne-out_of_fuel n (failure ∷ rest) c = λ e. cc
recv_from-ne-out_of_fuel n (piece bs ∷ rest) c = λ e. ground arith

pub recv-ne-out_of_fuel : (n : ℕ) (c : Conn) → (recv n c).0 ≢ err out_of_fuel
unfolding recv
recv-ne-out_of_fuel n c =
    elim c.is_open
      as (λ b. (if b then recv_from n c.incoming c else (err os_error, c)).0 ≢ err out_of_fuel) [
        | true ↦ recv_from-ne-out_of_fuel n c.incoming c
        | false ↦ (λ e. cc)
      ]

module _ (fuel start n filled : ℕ) (t : Target)
    (rounds : (got : ℕ) (t' : Target)
      → n ≤ filled + got + fuel
      → Ends t' (recv_loop fuel start n (filled + got) t')) where
  recv_loop_after :
      (r : Result Bytes) (c : Conn)
      → n ≤ filled + suc fuel
      → r ≢ err out_of_fuel
      → SameOut t.conn c
      → Ends t (
          proceed (store_got (start + filled) t.buf (r, c)) (λ got t'.
            let rest = recv_loop fuel start n (filled + got) t' in
            if got == 0 then (err (protocol_error (connection_closed n filled)), t') else rest))
  unfolding store_got
  recv_loop_after (err e) c h ne same = record {
    ends = λ q. ne (cc);
    same = same;
    length_buf = refl;
  }
  recv_loop_after (ok []) c h ne same = record {
    ends = λ q. cc;
    same = same;
    length_buf = length-blit (start + filled) [] t.buf;
  }
  recv_loop_after (ok (b ∷ bs)) c h ne same =
      let t' : Target = record { conn = c; buf = blit (start + filled) (b ∷ bs) t.buf } in
      let more = rounds (suc (length bs)) t' (omega arith) in
      let z : (suc (length bs) == 0) ≡ false = ground arith in
      rw z (record {
        ends = more.ends;
        same = SameOut-trans same more.same;
        length_buf = more.length_buf ∙ length-blit (start + filled) (b ∷ bs) t.buf;
      })

Ends-refl : (t : Target) → Ends t (ok tt, t)
Ends-refl t = record { ends = λ q. cc; same = SameOut-refl t.conn; length_buf = refl }

recv_loop-Ends :
    (fuel start n filled : ℕ) (t : Target)
    → n ≤ filled + fuel
    → Ends t (recv_loop fuel start n filled t)
recv_loop-Ends zero start n filled t h =
    rw (recv_loop_full zero start n filled t [] (omega arith)) (Ends-refl t)
recv_loop-Ends (suc fuel) start n filled t h = elim (Bool-cases (ltb filled n)) [
  | inl less ↦ rw (recv_loop_step fuel start n filled t (ltb→lt filled n less)) (
      recv_loop_after fuel start n filled t
        (λ got t' h'. recv_loop-Ends fuel start n (filled + got) t' h') (recv (n - filled) t.conn).0
        (recv (n - filled) t.conn).1 h (recv-ne-out_of_fuel (n - filled) t.conn)
        (recv-SameOut (n - filled) t.conn))
  | inr full ↦
      rw (recv_loop_full (suc fuel) start n filled t [] (ltb_false→le filled n full)) (Ends-refl t)
]

-- On every socket state and buffer `_recvn_into` ends: it does not exhaust its rounds, it keeps the
-- length of the buffer, and it sends nothing and neither opens nor closes the socket.
pub recvn_into-Ends : (start n : ℕ) (t : Target) → Ends t (recvn_into start n t)
unfolding recvn_into
recvn_into-Ends start n t = recv_loop-Ends n start n 0 t (omega arith)

-- `_recvn` ends on every input: it returns exactly `size` bytes or raises, and sends nothing.
pub record RecvnEnds (size : ℕ) (c : Conn) (r : Result Bytes × Conn) : Type 0 where
  pub ends : r.0 ≢ err out_of_fuel
  pub same : SameOut c r.1
  pub length_ok : (bs : Bytes) → r.0 ≡ ok bs → length bs ≡ size

take_buffer-Ends :
    (size : ℕ) (t : Target) (r : Result (Unit {0})) (t' : Target)
    → length t.buf ≡ size
    → Ends t (r, t')
    → RecvnEnds size t.conn (take_buffer (r, t'))
unfolding take_buffer
take_buffer-Ends size t (ok u) t' l e = record {
  ends = λ q. cc;
  same = e.same;
  length_ok = λ bs q. let q' : t'.buf ≡ bs = cc in ap length (sym q') ∙ e.length_buf ∙ l;
}
take_buffer-Ends size t (err x) t' l e = record {
  ends = λ q. e.ends (cc);
  same = e.same;
  length_ok = λ bs q. cc;
}

-- On every socket state `_recvn` ends: it does not exhaust its rounds, what it returns has exactly
-- the size asked for, and it sends nothing and neither opens nor closes the socket.
pub recvn-Ends : (size : ℕ) (c : Conn) → RecvnEnds size c (recvn size c)
unfolding recvn
recvn-Ends size c =
    let t : Target = record { conn = c; buf = replicate size 0 } in
    take_buffer-Ends size t (recvn_into 0 size t).0 (recvn_into 0 size t).1
      (length-replicate size 0) (recvn_into-Ends 0 size t)
