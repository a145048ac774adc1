-- ===== src/Conn/Send.antt =====
-- `sendall` on a connection that takes everything, and on any.
use open_vix_disk_lib.Prelude.{
  ◌≡◌, refl, sym, ◌∙◌, ◌⊎◌, inl, inr, Bool, true, false, List, [], ◌∷◌, ◌++◌, append-nil,
  append_assoc, if◌then◌else◌,
}
use open_vix_disk_lib.Error.{Result, ok, err, os_error}
use open_vix_disk_lib.Struct.{Bytes}
use open_vix_disk_lib.Conn.{Conn, sendall, send_over}

-- The socket is open and no send is going to fail.
pub record CanSend (c : Conn) : Type 0 where
  pub is_open : c.is_open ≡ true
  pub no_faults : c.send_faults ≡ []

pub able :
    {c c' : Conn} → CanSend c → c'.is_open ≡ c.is_open → c'.send_faults ≡ c.send_faults → CanSend c'
able can o f = record { is_open = o ∙ can.is_open; no_faults = f ∙ can.no_faults }

-- Frames that are added one at a time.
abbrev pub in_turn : List Bytes → List Bytes → List Bytes
in_turn sent [] = sent
in_turn sent (f ∷ fs) = in_turn (sent ++ (f ∷ [])) fs

pub in_turn-append : (sent fs : List Bytes) → in_turn sent fs ≡ sent ++ fs
in_turn-append sent [] = sym (append-nil sent)
in_turn-append sent (f ∷ fs) = in_turn-append (sent ++ (f ∷ [])) fs ∙ append_assoc sent (f ∷ []) fs

pub sendall_lem :
    (c : Conn) (bs : Bytes)
    → CanSend c
    → sendall bs c ≡ (ok tt, record c { sent = c.sent ++ (bs ∷ []) })
unfolding sendall
sendall_lem c bs h = rw (h.is_open, h.no_faults, send_over) refl

-- On any connection: `sendall` returns and the bytes went out, or it raises and nothing did; what
-- comes in, and whether the socket is open, does not change.
pub record SendEnds (bs : Bytes) (c : Conn) (r : Result (Unit {0}) × Conn) : Type 0 where
  pub outcome :
      ((r.0 ≡ ok tt) × (r.1.sent ≡ c.sent ++ (bs ∷ [])))
      ⊎ ((r.0 ≡ err os_error) × (r.1.sent ≡ c.sent))
  pub incoming : r.1.incoming ≡ c.incoming
  pub is_open : r.1.is_open ≡ c.is_open

send_over-SendEnds :
    (bs : Bytes) (faults : List Bool) (c : Conn) → SendEnds bs c (send_over bs faults c)
unfolding send_over
send_over-SendEnds bs [] c = record { outcome = inl (refl, refl); incoming = refl; is_open = refl }
send_over-SendEnds bs (false ∷ rest) c = record {
  outcome = inl (refl, refl);
  incoming = refl;
  is_open = refl;
}
send_over-SendEnds bs (true ∷ rest) c = record {
  outcome = inr (refl, refl);
  incoming = refl;
  is_open = refl;
}

pub sendall-SendEnds : (bs : Bytes) (c : Conn) → SendEnds bs c (sendall bs c)
unfolding sendall
sendall-SendEnds bs c =
    elim c.is_open
      as (λ b. SendEnds bs c (if b then send_over bs c.send_faults c else (err os_error, c))) [
        | true ↦ send_over-SendEnds bs c.send_faults c
        | false ↦ record { outcome = inr (refl, refl); incoming = refl; is_open = refl }
      ]

pub sendall_closed : (bs : Bytes) (c : Conn) → c.is_open ≡ false → (sendall bs c).0 ≡ err os_error
unfolding sendall
sendall_closed bs c h = rw h refl
