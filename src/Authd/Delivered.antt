-- ===== src/Authd/Delivered.antt =====
-- `_readline` (openvixdisklib/nfc_auth.py) on a stream that holds a line.
use open_vix_disk_lib.Prelude.{
  ℕ, zero, suc, ◌+◌, ◌-◌, ◌≤◌, ◌<◌, ◌≡◌, ◌≢◌, refl, ap, ◌∙◌, arith, Bool, true, false, List, [],
  ◌∷◌, ◌++◌, append_assoc, ltb, ◌==◌, length, drop, length-append, drop-append_exact, All,
  le→ltb_false, le→leb, text_eq, ◌&&◌,
}
use open_vix_disk_lib.Error.{ok}
use open_vix_disk_lib.Struct.{Bytes}
use open_vix_disk_lib.Text.{ends_with}
use open_vix_disk_lib.Conn.{Arrival, Conn, recv}
use open_vix_disk_lib.Conn.Receive.{Delivers, recv_some}
use open_vix_disk_lib.Authd.{max_line, ends_line, read_until_eol}

and_true : (b : Bool) → (b && true) ≡ b
and_true true = refl
and_true false = refl

no_line : ends_line [] ≡ false
unfolding ends_with
no_line = refl

ends_line_last : (buf : Bytes) (x : ℕ) → ends_line (buf ++ (x ∷ [])) ≡ (x == 10)
unfolding ends_with text_eq
ends_line_last buf x =
    let l : length (buf ++ (x ∷ [])) ≡ length buf + 1 = length-append buf (x ∷ []) in
    let d : drop (length (buf ++ (x ∷ [])) - 1) (buf ++ (x ∷ [])) ≡ x ∷ [] =
      drop-append_exact buf (x ∷ []) (length (buf ++ (x ∷ [])) - 1) (omega arith) in
    rw (le→leb 1 (length (buf ++ (x ∷ []))) (omega arith), d) (and_true (x == 10))

single :
    (x : ℕ) (got more : Bytes)
    → x ∷ [] ≡ got ++ more
    → 0 < length got
    → (got ≡ x ∷ []) × (more ≡ [])
single x [] more e p = absurd (omega arith)
single x (g ∷ []) more e p = (cc, cc)
single x (g ∷ h ∷ t) more e p = absurd (cc)

-- One byte.
recv_one :
    (c : Conn) (x : ℕ) (ys : Bytes)
    → c.is_open ≡ true
    → Delivers c.incoming (x ∷ ys)
    → (rest : List Arrival) × (recv 1 c ≡ (ok (x ∷ []), record c { incoming = rest }))
      × Delivers rest ys
recv_one c x ys o d =
    let (got, more, rest, r, px, pos, d') =
      recv_some c c.incoming 1 (x ∷ []) ys refl o refl (omega arith) d in
    let (eg, em) = single x got more px pos in (rest, rw eg at r, rw em at d')

read_until_eol_whole :
    (fuel : ℕ) (buf : Bytes) (c : Conn)
    → ends_line buf ≡ true
    → read_until_eol fuel buf c ≡ (ok buf, c)
unfolding read_until_eol
read_until_eol_whole zero buf c e = rw e refl
read_until_eol_whole (suc fuel) buf c e = rw e refl

read_until_eol_more :
    (fuel : ℕ) (buf : Bytes) (c c' : Conn) (x : ℕ)
    → ends_line buf ≡ false
    → recv 1 c ≡ (ok (x ∷ []), c')
    → length buf + 1 ≤ max_line
    → read_until_eol (suc fuel) buf c ≡ read_until_eol fuel (buf ++ (x ∷ [])) c'
unfolding read_until_eol
read_until_eol_more fuel buf c c' x e r l =
    let short : ltb max_line (length (buf ++ (x ∷ []))) ≡ false =
      le→ltb_false max_line (length (buf ++ (x ∷ [])))
        (omega (arith, length-append buf (x ∷ []))) in
    rw (e, r, short) refl

loop-Delivers :
    (fuel : ℕ) (buf xs ys : Bytes) (c : Conn)
    → c.is_open ≡ true
    → ends_line buf ≡ false
    → All (λ b. b ≢ 10) xs
    → length xs < fuel
    → length buf + length xs + 1 ≤ max_line
    → Delivers c.incoming (xs ++ (10 ∷ ys))
    → (rest : List Arrival) × (read_until_eol fuel buf c
        ≡ (ok (buf ++ (xs ++ (10 ∷ []))), record c { incoming = rest }))
      × Delivers rest ys
loop-Delivers zero buf xs ys c o e plain f l d = absurd (omega arith)
loop-Delivers (suc fuel) buf [] ys c o e plain f l d =
    let (rest, r, d') = recv_one c 10 ys o d in
    let c' : Conn = record c { incoming = rest } in
    (
      rest,
      read_until_eol_more fuel buf c c' 10 e r (omega arith)
          ∙ read_until_eol_whole fuel (buf ++ (10 ∷ [])) c' (ends_line_last buf 10),
      d',
    )
loop-Delivers (suc fuel) buf (x ∷ xs) ys c o e plain f l d =
    let (rest, r, d') = recv_one c x (xs ++ (10 ∷ ys)) o d in
    let c' : Conn = record c { incoming = rest } in
    let other : (x == 10) ≡ false = ground (arith, plain.0) in
    let (rest', e', d'') =
      loop-Delivers fuel (buf ++ (x ∷ [])) xs ys c' o (ends_line_last buf x ∙ other) plain.1
        (omega arith) (omega (arith, length-append buf (x ∷ []))) d' in
    (
      rest',
      read_until_eol_more fuel buf c c' x e r (omega arith)
          ∙ e'
          ∙ ap (λ (b : Bytes). (ok b, record c { incoming = rest' }))
              (append_assoc buf (x ∷ []) (xs ++ (10 ∷ []))),
      d'',
    )

-- If an open socket delivers a line of fewer than 4096 bytes, none of them a line feed, and then a
-- line feed, cut into any nonempty pieces, then the loop of `_readline` returns the line with its
-- line feed, and leaves exactly the bytes behind it to be delivered.
pub read_until_eol_lem :
    (c : Conn) (line ys : Bytes)
    → c.is_open ≡ true
    → All (λ b. b ≢ 10) line
    → length line < max_line
    → Delivers c.incoming (line ++ (10 ∷ ys))
    → (rest : List Arrival) × (read_until_eol (max_line + 1) [] c
        ≡ (ok (line ++ (10 ∷ [])), record c { incoming = rest }))
      × Delivers rest ys
read_until_eol_lem c line ys o plain l d =
    loop-Delivers (max_line + 1) [] line ys c o no_line plain (omega arith) (omega arith) d
