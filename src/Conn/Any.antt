-- ===== src/Conn/Any.antt =====
-- What receiving leaves alone, whatever comes, as rules for actions on a socket
-- (openvixdisklib/nfc_open.py); and the bytes of a buffer that `_recvn_into` does not write.
use open_vix_disk_lib.Prelude.{
  ℕ, zero, suc, ◌+◌, ◌-◌, ◌≤◌, ◌<◌, ◌≡◌, refl, ap, ◌∙◌, inl, inr, true, false, List, [], ◌∷◌, arith,
  ltb, leb, ◌==◌, length, drop, blit, drop-blit, length-take, Bool-cases, if◌then◌else◌, ltb→lt,
  ltb_false→le, leb→le,
}
use open_vix_disk_lib.Error.{Result, ok, err, protocol_error, connection_closed, os_error}
use open_vix_disk_lib.Exec.{proceed}
use open_vix_disk_lib.Exec.Runs.{Preorder, Runs, Outcome}
use open_vix_disk_lib.Struct.{Bytes}
use open_vix_disk_lib.Conn.{
  Arrival, piece, failure, Conn, recv, recv_from, Target, store_got, recv_loop, recvn_into, recvn,
}
use open_vix_disk_lib.Conn.Ends.{
  SameOut, SameOut-refl, SameOut-trans, RecvnEnds, recvn-Ends, recv_loop_step,
}
use open_vix_disk_lib.Conn.Receive.{recv_loop_full}

pub SameOut-Preorder : Preorder SameOut
SameOut-Preorder = record { self = SameOut-refl; compose = λ c d e p q. SameOut-trans p q }

recvn-Outcome :
    (n : ℕ) (c : Conn) (x : Result Bytes) (c' : Conn)
    → RecvnEnds n c (x, c')
    → Outcome SameOut (λ bs. length bs ≡ n) c x c'
recvn-Outcome n c (ok bs) c' h = (h.same, h.length_ok bs refl)
recvn-Outcome n c (err e) c' h = (h.same, λ q. h.ends (ap err q))

pub recvn-Runs : (n : ℕ) → Runs SameOut (λ bs. length bs ≡ n) (recvn n)
recvn-Runs n = record { at = λ c. recvn-Outcome n c (recvn n c).0 (recvn n c).1 (recvn-Ends n c) }

-- `recv` returns no more than it is asked for.
unfoldable pub AtMost : ℕ → Result Bytes → Type 0
AtMost n (ok bs) = length bs ≤ n
AtMost n (err e) = Unit {0}

recv_from-AtMost :
    (n : ℕ) (arrivals : List Arrival) (c : Conn) → AtMost n (recv_from n arrivals c).0
unfolding recv_from AtMost
recv_from-AtMost n [] c = omega arith
recv_from-AtMost n (failure ∷ rest) c = tt
recv_from-AtMost n (piece bs ∷ rest) c = elim (Bool-cases (leb (length bs) n)) [
  | inl fits ↦ rw fits (leb→le _ _ fits)
  | inr long ↦ rw long (omega (arith, length-take n bs))
]

pub recv-AtMost : (n : ℕ) (c : Conn) → AtMost n (recv n c).0
unfolding recv AtMost
recv-AtMost n c =
    elim c.is_open
      as (λ b. AtMost n (if b then recv_from n c.incoming c else (err os_error, c)).0) [
        | true ↦ recv_from-AtMost n c.incoming c
        | false ↦ tt
      ]

module _ (fuel start n filled stop : ℕ) (t : Target)
    (rounds : (got : ℕ) (t' : Target)
      → drop stop (recv_loop fuel start n (filled + got) t').1.buf ≡ drop stop t'.buf) where
  drop-recv_after :
      (r : Result Bytes) (c : Conn)
      → start + n ≤ stop
      → filled < n
      → AtMost (n - filled) r
      → drop stop
          (proceed (store_got (start + filled) t.buf (r, c)) (λ got t'.
            let rest = recv_loop fuel start n (filled + got) t' in
            if got == 0
            then (err (protocol_error (connection_closed n filled)), t')
            else rest)).1.buf
        ≡ drop stop t.buf
  unfolding store_got AtMost
  drop-recv_after (err e) c h l m = refl
  drop-recv_after (ok []) c h l m = drop-blit (start + filled) [] t.buf stop (omega arith)
  drop-recv_after (ok (b ∷ bs)) c h l m =
      let t' : Target = record { conn = c; buf = blit (start + filled) (b ∷ bs) t.buf } in
      let z : (suc (length bs) == 0) ≡ false = ground arith in
      rw z
        (rounds (suc (length bs)) t' ∙ drop-blit (start + filled) (b ∷ bs) t.buf stop (omega arith))

drop-recv_loop :
    (fuel start n filled stop : ℕ) (t : Target)
    → start + n ≤ stop
    → drop stop (recv_loop fuel start n filled t).1.buf ≡ drop stop t.buf
drop-recv_loop zero start n filled stop t h = elim (Bool-cases (ltb filled n)) [
  | inl less ↦ unfold recv_loop in rw less refl
  | inr full ↦ unfold recv_loop in rw full refl
]
drop-recv_loop (suc fuel) start n filled stop t h = elim (Bool-cases (ltb filled n)) [
  | inl less ↦ rw (recv_loop_step fuel start n filled t (ltb→lt filled n less)) (
      drop-recv_after fuel start n filled stop t
        (λ got t'. drop-recv_loop fuel start n (filled + got) stop t' h)
        (recv (n - filled) t.conn).0 (recv (n - filled) t.conn).1 h (ltb→lt filled n less)
        (recv-AtMost (n - filled) t.conn))
  | inr full ↦ rw (recv_loop_full (suc fuel) start n filled t [] (ltb_false→le filled n full)) refl
]

-- Bytes behind the view stay as they are.
pub drop-recvn_into :
    (start n stop : ℕ) (t : Target)
    → start + n ≤ stop
    → drop stop (recvn_into start n t).1.buf ≡ drop stop t.buf
unfolding recvn_into
drop-recvn_into start n stop t h = drop-recv_loop n start n 0 stop t h
