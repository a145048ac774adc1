-- ===== src/Conn/Receive.antt =====
-- `_recvn_into` and `_recvn` (openvixdisklib/nfc_open.py) on a stream that is cut in any way.
use open_vix_disk_lib.Prelude.{
  ℕ, zero, suc, ◌+◌, ◌-◌, ◌≤◌, ◌<◌, ◌≡◌, refl, sym, ap, ◌∙◌, inl, inr, true, false, List, [], ◌∷◌,
  ◌++◌, append-nil, arith, leb, ◌==◌, length, take, drop, replicate, All, blit, length-blit,
  length-append, length-replicate, blit-blit, blit_nil, blit_whole, Bool-cases, leb→le,
  take-append_exact, drop-append_exact, lt→ltb, le→ltb_false,
}
use open_vix_disk_lib.Error.{ok}
use open_vix_disk_lib.Struct.{Bytes}
use open_vix_disk_lib.Conn.{
  Arrival, piece, failure, Conn, recv, recv_from, Target, store_got, recv_into, recv_loop,
  recvn_into, take_buffer, recvn,
}

abbrev pub IsPiece : Arrival → Type 0
IsPiece (piece []) = ⊥
IsPiece (piece (b ∷ bs)) = Unit {0}
IsPiece failure = ⊥

abbrev pub stream : List Arrival → Bytes
stream [] = []
stream (piece bs ∷ rest) = bs ++ stream rest
stream (failure ∷ rest) = stream rest

-- The arrivals are the bytes `bs`, cut into any pieces, and then the end of the stream.
pub record Delivers (arrivals : List Arrival) (bs : Bytes) : Type 0 where
  pub pieces : All IsPiece arrivals
  pub bytes : stream arrivals ≡ bs

-- Of two ways to cut the same list, the shorter front is a front of the longer.
pub split_front :
    (bs s xs ys : Bytes)
    → bs ++ s ≡ xs ++ ys
    → length bs ≤ length xs
    → (m : Bytes) × (xs ≡ bs ++ m) × (s ≡ m ++ ys)
split_front [] s xs ys e h = (xs, refl, e)
split_front (b ∷ bs) s [] ys e h = absurd (omega arith)
split_front (b ∷ bs) s (x ∷ xs) ys e h =
    let (m, p, q) = split_front bs s xs ys (cc) (omega arith) in (m, cc, q)

nonempty_piece : (bs : Bytes) → 0 < length bs → IsPiece (piece bs)
nonempty_piece [] h = absurd (omega arith)
nonempty_piece (b ∷ bs) h = tt

pub piece_nonempty : (bs : Bytes) → IsPiece (piece bs) → 0 < length bs
piece_nonempty [] h = absurd h
piece_nonempty (b ∷ bs) h = omega arith

-- One `recv` gives a front of what is wanted, not empty, and leaves the rest to come.
abbrev pub Got : ℕ → Conn → Bytes → Bytes → Type 0
Got n c xs ys =
    (got : Bytes) × (more : Bytes) × (rest : List Arrival) × (recv n c
      ≡ (ok got, record c { incoming = rest }))
    × (xs ≡ got ++ more)
    × (0 < length got)
    × Delivers rest (more ++ ys)

pub recv_some :
    (c : Conn) (arrivals : List Arrival) (n : ℕ) (xs ys : Bytes)
    → c.incoming ≡ arrivals
    → c.is_open ≡ true
    → length xs ≡ n
    → 0 < n
    → Delivers arrivals (xs ++ ys)
    → Got n c xs ys
unfolding recv
recv_some c [] n [] ys e o l p d = absurd (omega arith)
recv_some c [] n (x ∷ xs) ys e o l p d = absurd (cc (d.bytes))
recv_some c (failure ∷ rest) n xs ys e o l p d = absurd d.pieces.0
recv_some c (piece bs ∷ rest) n xs ys e o l p d = elim (Bool-cases (leb (length bs) n)) [
  | inl fits ↦
      let (m, px, ps) = split_front bs (stream rest) xs ys d.bytes (rw l (leb→le _ _ fits)) in
      (
        bs,
        m,
        rest,
        rw (o, e, fits, recv_from) refl,
        px,
        piece_nonempty bs d.pieces.0,
        record { pieces = d.pieces.1; bytes = ps },
      )
  | inr long ↦
      let h : n < length bs = ground arith in
      let (m, pb, py) = split_front xs ys bs (stream rest) (sym d.bytes) (omega arith) in
      let lb : length bs ≡ length xs + length m = ap length pb ∙ length-append xs m in
      let t : take n bs ≡ xs = rw pb (take-append_exact xs m n l) in
      let r : drop n bs ≡ m = rw pb (drop-append_exact xs m n l) in
      (
        xs,
        [],
        piece m ∷ rest,
        rw (o, e, long, recv_from, t, r) refl,
        sym (append-nil xs),
        omega arith,
        record { pieces = (nonempty_piece m (omega arith), d.pieces.1); bytes = sym py },
      )
]

-- One round of the loop that receives `got`.
pub recv_loop_round :
    (fuel start n filled : ℕ) (t : Target) (got : Bytes) (c : Conn)
    → filled < n
    → recv (n - filled) t.conn ≡ (ok got, c)
    → 0 < length got
    → recv_loop (suc fuel) start n filled t
      ≡ recv_loop fuel start n
          (filled + length got)
          (record { conn = c; buf = blit (start + filled) got t.buf })
unfolding recv_loop recv_into
recv_loop_round fuel start n filled t got c h r p =
    let z : (length got == 0) ≡ false = ground arith in rw (lt→ltb filled n h, r, store_got, z) refl

abbrev Filled : ℕ → ℕ → ℕ → ℕ → Target → Bytes → Bytes → Type 0
Filled fuel start n filled t xs ys =
    (rest : List Arrival) × (recv_loop fuel start n filled t ≡ (
      ok tt,
      record { conn = record t.conn { incoming = rest }; buf = blit (start + filled) xs t.buf },
    ))
    × Delivers rest ys

pub recv_loop_full :
    (fuel start n filled : ℕ) (t : Target) (ys : Bytes)
    → n ≤ filled
    → recv_loop fuel start n filled t ≡ (ok tt, t)
unfolding recv_loop
recv_loop_full zero start n filled t ys h = rw (le→ltb_false filled n h)
recv_loop_full (suc fuel) start n filled t ys h = rw (le→ltb_false filled n h)

recv_loop_fills :
    (fuel start n filled : ℕ) (t : Target) (xs ys : Bytes)
    → t.conn.is_open ≡ true
    → filled + length xs ≡ n
    → length xs ≤ fuel
    → start + n ≤ length t.buf
    → Delivers t.conn.incoming (xs ++ ys)
    → Filled fuel start n filled t xs ys
recv_loop_fills fuel start n filled t [] ys o l f b d = (
  t.conn.incoming,
  recv_loop_full fuel start n filled t ys (omega arith)
      ∙ ap (λ (x : Bytes). (ok tt, record { conn = t.conn; buf = x }))
          (sym (blit_nil (start + filled) t.buf)),
  d,
)
recv_loop_fills zero start n filled t (x ∷ xs) ys o l f b d = absurd (omega arith)
recv_loop_fills (suc fuel) start n filled t (x ∷ xs) ys o l f b d =
    let (got, more, rest, r, px, pos, d') =
      recv_some t.conn t.conn.incoming (n - filled) (x ∷ xs) ys refl o (omega arith) (omega arith)
        d in
    let lx : length (x ∷ xs) ≡ length got + length more = ap length px ∙ length-append got more in
    let c : Conn = record t.conn { incoming = rest } in
    let t' : Target = record { conn = c; buf = blit (start + filled) got t.buf } in
    let lb : length t'.buf ≡ length t.buf = length-blit (start + filled) got t.buf in
    let (rest', e, d'') =
      recv_loop_fills fuel start n (filled + length got) t' more ys o (omega arith) (omega arith)
        (omega arith) d' in
    (
      rest',
      recv_loop_round fuel start n filled t got c (omega arith) r pos
          ∙ e
          ∙ ap
              (λ (b : Bytes).
                (ok tt, record { conn = record t.conn { incoming = rest' }; buf = b }))
              (blit-blit (start + filled) (start + (filled + length got)) got more t.buf
                  (omega arith) (omega arith)
                ∙ ap (λ (q : Bytes). blit (start + filled) q t.buf) (sym px)),
      d'',
    )

-- If an open socket delivers at least as many bytes as the view has, and the view lies in the
-- buffer, then `_recvn_into` fills the view with the first of them, changes no other byte of the
-- buffer, and leaves exactly the other bytes to be delivered.
pub recvn_into_fills :
    (start : ℕ) (t : Target) (xs ys : Bytes)
    → t.conn.is_open ≡ true
    → start + length xs ≤ length t.buf
    → Delivers t.conn.incoming (xs ++ ys)
    → (rest : List Arrival) × (recvn_into start (length xs) t
        ≡ (ok tt, record { conn = record t.conn { incoming = rest }; buf = blit start xs t.buf }))
      × Delivers rest ys
unfolding recvn_into
recvn_into_fills start t xs ys o b d =
    let (rest, e, d') =
      recv_loop_fills (length xs) start (length xs) 0 t xs ys o (omega arith) (omega arith) b d in
    let z : start + 0 ≡ start = omega arith in (rest, rw z at e, d')

-- If an open socket delivers a byte sequence, cut into any nonempty pieces, then `_recvn` returns
-- the first bytes that were asked for and leaves exactly the others to be delivered.
pub recvn-Delivers :
    (c : Conn) (xs ys : Bytes)
    → c.is_open ≡ true
    → Delivers c.incoming (xs ++ ys)
    → (rest : List Arrival) × (recvn (length xs) c ≡ (ok xs, record c { incoming = rest }))
      × Delivers rest ys
unfolding recvn
recvn-Delivers c xs ys o d =
    let buf : Bytes = replicate (length xs) 0 in
    let lb : length buf ≡ length xs = length-replicate (length xs) 0 in
    let (rest, e, d') =
      recvn_into_fills 0 (record { conn = c; buf = buf }) xs ys o (omega arith) d in
    (
      rest,
      rw (e, take_buffer)
          (ap (λ (b : Bytes). (ok b, record c { incoming = rest })) (blit_whole xs buf (sym lb))),
      d',
    )
