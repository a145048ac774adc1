-- ===== src/Aio/Touches.antt =====
-- What the exchanges of a disk (openvixdisklib/nfc_open.py) may change, whatever the server sends:
-- `_aio_send`, `_aio_recv_reply`, `_aio_roundtrip`.
use open_vix_disk_lib.Prelude.{
  ℕ, ◌≤◌, ◌≡◌, refl, sym, ap, ◌∙◌, inl, inr, false, ◌||◌, not, List, [], ◌∷◌, ◌++◌, append-nil,
  append_assoc, arith, ◌==◌, length,
}
use open_vix_disk_lib.Error.{Error, Result, ok, err, os_error, protocol_error, unexpected_reply}
use open_vix_disk_lib.Exec.{Exec}
use open_vix_disk_lib.Exec.Runs.{
  Preorder, Outcome, Runs, Any, Runs-pure, Runs-lift, Runs-raise_if, Runs-bind, Runs-if,
  Runs-weaken,
}
use open_vix_disk_lib.Struct.{Bytes}
use open_vix_disk_lib.Conn.{Conn, recvn, sendall}
use open_vix_disk_lib.Conn.Ends.{SameOut}
use open_vix_disk_lib.Conn.Any.{SameOut-Preorder, recvn-Runs}
use open_vix_disk_lib.Conn.Send.{SendEnds, sendall-SendEnds, sendall_closed}
use open_vix_disk_lib.Aio.Yields.{
  pack_aio_hdr-Yields, unpack_words-Yields, check_magic-Yields, check_type-Yields,
}
use open_vix_disk_lib.Aio.{
  NfcDisk, on_sock, next_op_id, pack_aio_hdr, unpack_words, check_magic, check_type, recv_body,
  aio_send, aio_recv_reply, aio_roundtrip, nfc_aio_hdr_size,
}

-- A socket after some exchange: frames were added to those sent, none if it is closed, and it is open
-- or closed as before.
pub record Speaks (c c' : Conn) : Type 0 where
  pub more : List Bytes
  pub sent : c'.sent ≡ c.sent ++ more
  pub is_open : c'.is_open ≡ c.is_open
  pub silent : c.is_open ≡ false → more ≡ []

pub Speaks-Preorder : Preorder Speaks
Speaks-Preorder = record {
  self =
      λ c. record { more = []; sent = sym (append-nil c.sent); is_open = refl; silent = λ _. refl };
  compose = λ c d e p q. record {
    more = p.more ++ q.more;
    sent = q.sent ∙ ap (λ (t : List Bytes). t ++ q.more) p.sent ∙ append_assoc c.sent p.more q.more;
    is_open = q.is_open ∙ p.is_open;
    silent = λ h. rw (p.silent h) (q.silent (p.is_open ∙ h));
  };
}

pub SameOut-Speaks : (c c' : Conn) → SameOut c c' → Speaks c c'
SameOut-Speaks c c' s = record {
  more = [];
  sent = s.sent ∙ sym (append-nil c.sent);
  is_open = s.is_open;
  silent = λ _. refl;
}

weaken-Outcome :
    {A : Type 0} (P : A → Type 0) (c : Conn) (x : Result A) (c' : Conn)
    → Outcome SameOut P c x c'
    → Outcome Speaks P c x c'
weaken-Outcome P c (ok a) c' (s, p) = (SameOut-Speaks c c' s, p)
weaken-Outcome P c (err e) c' (s, ne) = (SameOut-Speaks c c' s, ne)

pub SameOut-Runs :
    {A : Type 0} {P : A → Type 0} (m : Exec Conn A) → Runs SameOut P m → Runs Speaks P m
SameOut-Runs {A} {P} m km = record { at = λ c. weaken-Outcome P c (m c).0 (m c).1 (km.at c) }

ok-err : {A : Type 0} {a : A} {e : Error} → ok a ≡ err e → ⊥
ok-err q = cc

sendall-Outcome :
    (bs : Bytes) (c : Conn) (x : Result (Unit {0})) (c' : Conn)
    → SendEnds bs c (x, c')
    → (c.is_open ≡ false → x ≡ err os_error)
    → Outcome Speaks Any c x c'
sendall-Outcome bs c (ok u) c' h shut = elim h.outcome [
  | inl (_, e) ↦
      let open_now : c.is_open ≡ false → bs ∷ [] ≡ [] = λ q. absurd (ok-err (shut q)) in
      (record { more = bs ∷ []; sent = e; is_open = h.is_open; silent = open_now }, tt)
  | inr (q, e) ↦ absurd (ok-err q)
]
sendall-Outcome bs c (err e) c' h shut = elim h.outcome [
  | inl (q, _) ↦ absurd (cc)
  | inr (q, s) ↦ (
    record {
      more = [];
      sent = s ∙ sym (append-nil c.sent);
      is_open = h.is_open;
      silent = λ _. refl;
    },
    λ f. cc,
  )
]

pub sendall-Runs : (bs : Bytes) → Runs Speaks Any (sendall bs)
sendall-Runs bs = record {
  at = λ c.
      sendall-Outcome bs c (sendall bs c).0 (sendall bs c).1 (sendall-SendEnds bs c)
        (sendall_closed bs c);
}

-- A disk after some operation: the operation id did not fall, and but for it and the socket all
-- fields are as they were.
pub record Touches (d e : NfcDisk) : Type 0 where
  pub fixed : e ≡ record d { op_id = e.op_id; sock = e.sock }
  pub grows : d.op_id ≤ e.op_id
  pub speaks : Speaks d.sock e.sock

pub Touches-Preorder : Preorder Touches
Touches-Preorder = record {
  self = λ d. record { fixed = refl; grows = omega arith; speaks = Speaks-Preorder.self d.sock };
  compose = λ d e f p q. record {
    fixed = q.fixed ∙ ap (λ (g : NfcDisk). record g { op_id = f.op_id; sock = f.sock }) p.fixed;
    grows = omega (arith, p.grows, q.grows);
    speaks = Speaks-Preorder.compose d.sock e.sock f.sock p.speaks q.speaks;
  };
}

on_sock-Outcome :
    {A : Type 0} (P : A → Type 0) (d : NfcDisk) (x : Result A) (c : Conn)
    → Outcome Speaks P d.sock x c
    → Outcome Touches P d x (record d { sock = c })
on_sock-Outcome P d (ok a) c (s, p) = (record { fixed = refl; grows = omega arith; speaks = s }, p)
on_sock-Outcome P d (err e) c (s, ne) =
    (record { fixed = refl; grows = omega arith; speaks = s }, ne)

pub on_sock-Runs :
    {A : Type 0} {P : A → Type 0} (m : Exec Conn A) → Runs Speaks P m → Runs Touches P (on_sock m)
on_sock-Runs {A} {P} m km = record {
  at = λ d. on_sock-Outcome P d (m d.sock).0 (m d.sock).1 (km.at d.sock);
}

pub next_op_id-Runs : Runs Touches Any next_op_id
unfolding next_op_id
next_op_id-Runs = record {
  at =
      λ d. (record { fixed = refl; grows = omega arith; speaks = Speaks-Preorder.self d.sock }, tt);
}

recv_body-Runs : (n : ℕ) → Runs SameOut Any (recv_body n)
unfolding recv_body
recv_body-Runs n =
    Runs-if (n == 0) _ _ (λ _. Runs-pure SameOut-Preorder [] tt)
      (λ _. Runs-weaken SameOut (λ bs. length bs ≡ n) Any (recvn n) (λ bs _. tt) (recvn-Runs n))

pub aio_recv_reply-Runs : Runs SameOut Any aio_recv_reply
unfolding aio_recv_reply
aio_recv_reply-Runs =
    let pre = SameOut-Preorder in
    Runs-bind pre _ _ (recvn-Runs nfc_aio_hdr_size) λ rhdr _.
      Runs-bind pre {P = Any} _ _ (Runs-lift pre (unpack_words rhdr) (unpack_words-Yields rhdr))
        λ w _.
          Runs-bind pre {P = Any} _ _ (Runs-lift pre (check_magic w) (check_magic-Yields w)) λ h _.
            Runs-bind pre _ _ (recv_body-Runs h.size) λ body _.
              Runs-bind pre {P = Any} _ _ (Runs-lift pre (check_type h) (check_type-Yields h))
                λ _ _. Runs-pure pre _ tt

pub aio_send-Runs : (t : ℕ) (payload extra : Bytes) → Runs Touches Any (aio_send t payload extra)
unfolding aio_send
aio_send-Runs t payload extra =
    let pre = Touches-Preorder in
    Runs-bind pre _ _ next_op_id-Runs λ op_id _.
      Runs-bind pre {P = Any} _ _
        (Runs-lift pre (pack_aio_hdr t (length payload) op_id)
          (pack_aio_hdr-Yields t (length payload) op_id))
        λ hdr _.
          Runs-bind pre _ _ (on_sock-Runs _ (sendall-Runs (hdr ++ (payload ++ extra))))
            λ _ _. Runs-pure pre op_id tt

pub aio_roundtrip-Runs :
    (t : ℕ) (payload extra : Bytes) (n : ℕ) → Runs Touches Any (aio_roundtrip t payload extra n)
unfolding aio_roundtrip
aio_roundtrip-Runs t payload extra n =
    let pre = Touches-Preorder in
    Runs-bind pre _ _ (aio_send-Runs t payload extra) λ op_id _.
      Runs-bind pre _ _ (on_sock-Runs _ (SameOut-Runs _ aio_recv_reply-Runs)) λ reply _.
        Runs-bind pre _ _
          (Runs-raise_if pre (not (reply.0 == t) || not (reply.1 == op_id))
            (protocol_error (unexpected_reply reply.0 reply.1 t op_id)) (λ e. cc))
          λ _ _.
            Runs-bind pre _ _ (on_sock-Runs _ (SameOut-Runs _ (recv_body-Runs n)))
              λ more _. Runs-pure pre _ tt
