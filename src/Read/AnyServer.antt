-- ===== src/Read/AnyServer.antt =====
-- `readinto` (openvixdisklib/nfc_open.py) against any server and any network.
use open_vix_disk_lib.Prelude.{
  ℕ, zero, suc, ◌+◌, ◌≤◌, ◌<◌, ◌≡◌, ◌≢◌, refl, ap, ◌∙◌, inl, inr, Bool, ◌||◌, not, arith, ltb, ◌==◌,
  length, drop, length-blit, drop-blit, Bool-cases, ltb→lt, ltb_false→le,
}
use open_vix_disk_lib.Error.{
  Result, ok, err, out_of_fuel, protocol_error, fragment_length, unsupported_compression,
  packed_too_long, reply_too_short,
}
use open_vix_disk_lib.Exec.{Exec, modify}
use open_vix_disk_lib.Exec.Runs.{
  Preorder, Outcome, Runs, Any, Runs-pure, Runs-lift, Runs-raise, Runs-raise_if, Runs-bind,
  Runs-then, Runs-if,
}
use open_vix_disk_lib.Conn.{Conn, recvn, recvn_into, Target}
use open_vix_disk_lib.Conn.Ends.{SameOut, SameOut-refl, SameOut-trans, recvn_into-Ends}
use open_vix_disk_lib.Conn.Any.{SameOut-Preorder, recvn-Runs, drop-recvn_into}
use open_vix_disk_lib.Fastlz.{Codec, decompress}
use open_vix_disk_lib.AioMsg
use open_vix_disk_lib.Aio.Yields.{unpack_aio_hdr-Yields, decompress-Yields}
use open_vix_disk_lib.Aio.{
  NfcDisk, on_sock, unpack_aio_hdr, nfc_aio_hdr_size, nfc_compression_fastlz, nfc_compression_none,
}
use open_vix_disk_lib.Read.Fragment.{
  Reading, Progress, Chunk, in_disk, receive_at, parse_chunk, recv_io_reply, advance,
  receive_packed, as_protocol_error, receive_fastlz, receive_extra,
}
use open_vix_disk_lib.Read.{read_fragment, read_loop}
use open_vix_disk_lib.Read.Rounds.{read_loop_full, read_loop_step}
use open_vix_disk_lib.Read.Checks.{Fitting, parse_chunk-Yields, protocol-Yields}

-- What reading a request of `len` bytes may change: the arrivals at the socket, and the first `len`
-- bytes of the buffer.
pub record Within (len : ℕ) (s t : Reading) : Type 0 where
  pub disk : t.disk ≡ record s.disk { sock = t.disk.sock }
  pub same : SameOut s.disk.sock t.disk.sock
  pub size : length t.buf ≡ length s.buf
  pub behind : drop len t.buf ≡ drop len s.buf

Within-refl : (len : ℕ) (s : Reading) → Within len s s
Within-refl len s = record {
  disk = refl;
  same = SameOut-refl s.disk.sock;
  size = refl;
  behind = refl;
}

Within-trans : (len : ℕ) (s t u : Reading) → Within len s t → Within len t u → Within len s u
Within-trans len s t u p q = record {
  disk = q.disk ∙ ap (λ (d : NfcDisk). record d { sock = u.disk.sock }) p.disk;
  same = SameOut-trans p.same q.same;
  size = q.size ∙ p.size;
  behind = q.behind ∙ p.behind;
}

pub Within-Preorder : (len : ℕ) → Preorder (Within len)
Within-Preorder len = record { self = Within-refl len; compose = Within-trans len }

recv_io_reply-Runs : (op_id : ℕ) → Runs SameOut Any (recv_io_reply op_id)
unfolding recv_io_reply
recv_io_reply-Runs op_id =
    let pre = SameOut-Preorder in
    Runs-bind pre _ _ (recvn-Runs nfc_aio_hdr_size) λ rhdr _.
      Runs-bind pre {P = Any} _ _ (Runs-lift pre (unpack_aio_hdr rhdr) (unpack_aio_hdr-Yields rhdr))
        λ h _.
          Runs-bind pre _ _
            (Runs-raise_if pre (not (h.msg_type == AioMsg.io) || not (h.op_id == op_id)) _
              (λ e. cc))
            λ _ _. Runs-bind pre _ _ (recvn-Runs h.size) λ body _.
              Runs-bind pre _ _
                (Runs-raise_if pre (ltb h.size 36) (protocol_error (reply_too_short h.size))
                  (λ e. cc))
                λ _ _. Runs-pure pre body tt

-- An exchange on the socket of the disk.
on_sock-Outcome :
    {A : Type 0} (P : A → Type 0) (len : ℕ) (s : Reading) (x : Result A) (c : Conn)
    → Outcome SameOut P s.disk.sock x c
    → Outcome (Within len) P s x (record s { disk = record s.disk { sock = c } })
on_sock-Outcome P len s (ok a) c (same, p) =
    (record { disk = refl; same = same; size = refl; behind = refl }, p)
on_sock-Outcome P len s (err e) c (same, p) =
    (record { disk = refl; same = same; size = refl; behind = refl }, p)

on_sock-Runs :
    {A : Type 0} {P : A → Type 0} (len : ℕ) (m : Exec Conn A)
    → Runs SameOut P m
    → Runs (Within len) P (in_disk (on_sock m))
on_sock-Runs {P} len m km = record {
  at = λ s. on_sock-Outcome P len s (m s.disk.sock).0 (m s.disk.sock).1 (km.at s.disk.sock);
}

modify-Runs :
    (len : ℕ) (f : Reading → Reading)
    → ((s : Reading) → Within len s (f s))
    → Runs (Within len) Any (modify f)
modify-Runs len f k = record { at = λ s. (k s, tt) }

receive_at-Outcome :
    (len : ℕ) (s : Reading) (x : Result (Unit {0})) (t : Target)
    → x ≢ err out_of_fuel
    → SameOut s.disk.sock t.conn
    → length t.buf ≡ length s.buf
    → drop len t.buf ≡ drop len s.buf
    → Outcome (Within len) Any s x (record { disk = record s.disk { sock = t.conn }; buf = t.buf })
receive_at-Outcome len s (ok u) t ne same size behind =
    (record { disk = refl; same = same; size = size; behind = behind }, tt)
receive_at-Outcome len s (err e) t ne same size behind =
    (record { disk = refl; same = same; size = size; behind = behind }, λ q. ne (ap err q))

receive_at-Runs : (len at n : ℕ) → at + n ≤ len → Runs (Within len) Any (receive_at at n)
unfolding receive_at
receive_at-Runs len at n h = record {
  at = λ s.
      let t : Target = record { conn = s.disk.sock; buf = s.buf } in
      let e = recvn_into-Ends at n t in
      receive_at-Outcome len s (recvn_into at n t).0 (recvn_into at n t).1 e.ends e.same
        e.length_buf (drop-recvn_into at n len t h);
}

-- The loop's variables after a round on a chunk.
abbrev Counted : Progress → Progress → Type 0
Counted p q = q.filled ≡ p.filled

receive_packed-Runs :
    (len : ℕ) (p : Progress) (k : Chunk) → Runs (Within len) (Counted p) (receive_packed len p k)
unfolding receive_packed
receive_packed-Runs len p k =
    let pre = Within-Preorder len in
    Runs-bind pre _ _
      (Runs-raise_if pre (ltb len (p.packed_offset + k.extra_len))
        (protocol_error (packed_too_long (p.packed_offset + k.extra_len) len)) (λ e. cc))
      λ _ fits.
        Runs-bind pre _ _
          (receive_at-Runs len p.packed_offset k.extra_len (ltb_false→le len _ fits))
          λ _ _. Runs-pure pre _ refl

module _ (lz : Codec) (len : ℕ) where
  receive_fastlz-Runs : (k : Chunk) → Fitting len k → Runs (Within len) Any (receive_fastlz lz k)
  unfolding receive_fastlz
  receive_fastlz-Runs k (more, inside) =
      let pre = Within-Preorder len in
      Runs-bind pre _ _ (on_sock-Runs len (recvn k.extra_len) (recvn-Runs k.extra_len)) λ extra _.
        Runs-bind pre {P = Any} _ _
          (Runs-lift pre (as_protocol_error (decompress lz extra k.chunk_len))
            (protocol-Yields _ (decompress-Yields lz extra k.chunk_len)))
          λ chunk _.
            Runs-bind pre _ _
              (Runs-raise_if pre (not (length chunk == k.chunk_len))
                (protocol_error (fragment_length (length chunk) k.chunk_len)) (λ e. cc))
              λ _ same. modify-Runs len _ λ s. record {
                disk = refl;
                same = SameOut-refl s.disk.sock;
                size = length-blit k.dest chunk s.buf;
                behind = drop-blit k.dest chunk s.buf len (ground arith);
              }

  receive_extra-Runs :
      (skip : Bool) (p : Progress) (k : Chunk)
      → Fitting len k
      → Runs (Within len) (Counted p) (receive_extra lz len skip p k)
  unfolding receive_extra
  receive_extra-Runs skip p k (more, inside) =
      let pre = Within-Preorder len in
      Runs-if skip _ _ (λ _. receive_packed-Runs len p k)
        λ _.
          Runs-if (k.ctype == nfc_compression_fastlz) _ _
            (λ _. Runs-then pre _ _ (receive_fastlz-Runs k (more, inside)) (Runs-pure pre p refl))
            λ _.
              Runs-if (k.ctype == nfc_compression_none) _ _
                (λ _.
                  Runs-then pre _ _ (receive_at-Runs len k.dest k.chunk_len inside)
                    (Runs-pure pre p refl))
                λ _. Runs-raise pre (protocol_error (unsupported_compression k.ctype)) (λ e. cc)

  read_fragment-Runs :
      (op_id : ℕ) (skip : Bool) (p : Progress)
      → Runs (Within len) (λ q. p.filled < q.filled) (read_fragment lz op_id len skip p)
  unfolding read_fragment
  read_fragment-Runs op_id skip p =
      let pre = Within-Preorder len in
      Runs-bind pre _ _ (on_sock-Runs len (recv_io_reply op_id) (recv_io_reply-Runs op_id))
        λ body _.
          Runs-bind pre _ _
            (Runs-lift pre (parse_chunk len p.seen body) (parse_chunk-Yields len p.seen body))
            λ k fit.
              Runs-bind pre _ _ (receive_extra-Runs skip p k fit)
                λ q same. Runs-pure pre (advance k q) (omega (arith, fit.0))

  -- With a round for each byte that is missing, the loop ends.
  pub read_loop-Runs :
      (fuel op_id : ℕ) (skip : Bool) (p : Progress)
      → len ≤ p.filled + fuel
      → Runs (Within len) (λ q. len ≤ q.filled) (read_loop lz fuel op_id len skip p)
  read_loop-Runs zero op_id skip p h = record {
    at = λ r.
        rw (read_loop_full lz op_id len skip zero p r (omega arith))
          ((Within-Preorder len).self r, omega arith);
  }
  read_loop-Runs (suc fuel) op_id skip p h = record {
    at = λ r. elim (Bool-cases (ltb p.filled len)) [
      | inl less ↦ rw (read_loop_step lz op_id len skip fuel p r (ltb→lt p.filled len less)) (
          (Runs-bind (Within-Preorder len) _ _ (read_fragment-Runs op_id skip p)
              (λ q more. read_loop-Runs fuel op_id skip q (omega arith))).at
            r)
      | inr full ↦
          rw (read_loop_full lz op_id len skip (suc fuel) p r (ltb_false→le p.filled len full))
            ((Within-Preorder len).self r, ltb_false→le p.filled len full)
    ];
  }
