-- ===== src/Read/Total.antt =====
-- `readinto` and `read` (openvixdisklib/nfc_open.py) as whole calls, against any server.
use open_vix_disk_lib.Prelude.{
  ℕ, ◌*◌, ◌≡◌, ◌≢◌, refl, sym, ap, ◌∙◌, inl, inr, Bool, true, false, ◌++◌, arith, ltb, length, drop,
  Bool-cases,
}
use open_vix_disk_lib.Error.{Error, Result, ok, err, out_of_fuel, value_error, no_sectors}
use open_vix_disk_lib.Exec.{Exec, gets}
use open_vix_disk_lib.Exec.Runs.{
  Preorder, Outcome, Runs, Yields, Any, if-Yields, Runs-pure, Runs-lift, Runs-bind,
}
use open_vix_disk_lib.Fastlz.{Codec}
use open_vix_disk_lib.AioMsg
use open_vix_disk_lib.Aio.{NfcDisk, next_op_id, pack_aio_hdr}
use open_vix_disk_lib.Aio.Yields.{pack-Yields, pack_aio_hdr-Yields}
use open_vix_disk_lib.Aio.Touches.{
  Touches, Touches-Preorder, on_sock-Runs, next_op_id-Runs, sendall-Runs, SameOut-Speaks,
}
use open_vix_disk_lib.Read.Fragment.{
  ReadResult, Buffer, Reading, Progress, start, in_disk, writable_bytes,
}
use open_vix_disk_lib.Read.AnyServer.{Within, read_loop-Runs}
use open_vix_disk_lib.Read.{read_request, read_loop, result, transfer, finish_read, readinto}

-- The disk and the buffer after reading.
pub record Reads (len : ℕ) (s t : Reading) : Type 0 where
  pub touches : Touches s.disk t.disk
  pub size : length t.buf ≡ length s.buf
  pub behind : drop len t.buf ≡ drop len s.buf

Reads-Preorder : (len : ℕ) → Preorder (Reads len)
Reads-Preorder len = record {
  self = λ s. record { touches = Touches-Preorder.self s.disk; size = refl; behind = refl };
  compose = λ s t u p q. record {
    touches = Touches-Preorder.compose s.disk t.disk u.disk p.touches q.touches;
    size = q.size ∙ p.size;
    behind = q.behind ∙ p.behind;
  };
}

Within-Reads : (len : ℕ) (s t : Reading) → Within len s t → Reads len s t
Within-Reads len s t w =
    let e : t.disk.op_id ≡ s.disk.op_id = ap (λ (d : NfcDisk). d.op_id) w.disk in
    record {
      touches = record {
        fixed = w.disk ∙ ap (λ (n : ℕ). record s.disk { op_id = n; sock = t.disk.sock }) (sym e);
        grows = omega arith;
        speaks = SameOut-Speaks s.disk.sock t.disk.sock w.same;
      };
      size = w.size;
      behind = w.behind;
    }

loop-Outcome :
    (len : ℕ) (P : Progress → Type 0) (s : Reading) (x : Result Progress) (t : Reading)
    → Outcome (Within len) P s x t
    → Outcome (Reads len) Any s x t
loop-Outcome len P s (ok p) t (w, _) = (Within-Reads len s t w, tt)
loop-Outcome len P s (err e) t (w, ne) = (Within-Reads len s t w, ne)

disk-Outcome :
    {A : Type 0} (len : ℕ) (s : Reading) (x : Result A) (d : NfcDisk)
    → Outcome Touches Any s.disk x d
    → Outcome (Reads len) Any s x (record s { disk = d })
disk-Outcome len s (ok a) d (t, p) = (record { touches = t; size = refl; behind = refl }, tt)
disk-Outcome len s (err e) d (t, ne) = (record { touches = t; size = refl; behind = refl }, ne)

in_disk-Runs :
    {A : Type 0} (len : ℕ) (m : Exec NfcDisk A)
    → Runs Touches Any m
    → Runs (Reads len) Any (in_disk m)
in_disk-Runs len m km = record {
  at = λ s. disk-Outcome len s (m s.disk).0 (m s.disk).1 (km.at s.disk);
}

disk_of-Runs : (len : ℕ) → Runs (Reads len) Any (gets (λ (s : Reading). s.disk))
disk_of-Runs len = record { at = λ s. ((Reads-Preorder len).self s, tt) }

request-Yields : (d : NfcDisk) (start_sector len : ℕ) → Yields Any (read_request d start_sector len)
unfolding read_request
request-Yields d start_sector len = pack-Yields _

result-whole :
    (len : ℕ) (skip : Bool) (p : Progress) → (result len skip p).uncompressed_length ≡ len
unfolding result
result-whole len skip p = refl

module _ (lz : Codec) where
  loop-Runs :
      (op_id len : ℕ) (skip : Bool) → Runs (Reads len) Any (read_loop lz len op_id len skip start)
  loop-Runs op_id len skip = record {
    at = λ s.
        loop-Outcome len _ s (read_loop lz len op_id len skip start s).0
          (read_loop lz len op_id len skip start s).1
          ((read_loop-Runs lz len len op_id skip start (omega arith)).at s);
  }

  transfer-Runs :
      (start_sector len : ℕ) (skip : Bool)
      → Runs (Reads len) (λ v. v.uncompressed_length ≡ len) (transfer lz start_sector len skip)
  unfolding transfer
  transfer-Runs start_sector len skip =
      let pre = Reads-Preorder len in
      Runs-bind pre _ _ (disk_of-Runs len) λ disk _.
        Runs-bind pre {P = Any} _ _
          (Runs-lift pre (read_request disk start_sector len)
            (request-Yields disk start_sector len))
          λ payload _. Runs-bind pre _ _ (in_disk-Runs len next_op_id next_op_id-Runs) λ op_id _.
            Runs-bind pre {P = Any} _ _
              (Runs-lift pre (pack_aio_hdr AioMsg.io (length payload) op_id)
                (pack_aio_hdr-Yields AioMsg.io (length payload) op_id))
              λ hdr _.
                Runs-bind pre _ _
                  (in_disk-Runs len _ (on_sock-Runs _ (sendall-Runs (hdr ++ payload))))
                  λ _ _.
                    Runs-bind pre {P = Any} _ _ (loop-Runs op_id len skip)
                      λ p _. Runs-pure pre (result len skip p) (result-whole len skip p)

-- Every outcome of `readinto`.
pub record ReadEnds (d : NfcDisk) (b : Buffer) (len : ℕ) (r : Result ReadResult × NfcDisk × Buffer)
    : Type 0 where
  pub ends : r.0 ≢ err out_of_fuel
  pub whole : (v : ReadResult) → r.0 ≡ ok v → v.uncompressed_length ≡ len
  pub touches : Touches d r.1
  pub size : length r.2.bytes ≡ length b.bytes
  pub behind : drop len r.2.bytes ≡ drop len b.bytes
  pub kept : b.readonly ≡ true → r.2 ≡ b

refused :
    (d : NfcDisk) (b : Buffer) (len : ℕ) (e : Error)
    → e ≢ out_of_fuel
    → ReadEnds d b len (err e, d, b)
refused d b len e ne = record {
  ends = λ q. ne (cc);
  whole = λ v q. absurd (cc);
  touches = Touches-Preorder.self d;
  size = refl;
  behind = refl;
  kept = λ _. refl;
}

finished :
    (d : NfcDisk) (b : Buffer) (len : ℕ) (x : Result ReadResult) (t : Reading)
    → b.readonly ≡ false
    → Outcome
        (Reads len)
        (λ v. v.uncompressed_length ≡ len)
        (record { disk = d; buf = b.bytes })
        x
        t
    → ReadEnds d b len (finish_read b (x, t))
unfolding finish_read
finished d b len (ok v) t w (r, same) = record {
  ends = λ q. cc;
  whole =
      λ v' q. let e : v ≡ v' = cc in ap (λ (u : ReadResult). u.uncompressed_length) (sym e) ∙ same;
  touches = r.touches;
  size = r.size;
  behind = r.behind;
  kept = λ ro. absurd (cc);
}
finished d b len (err e) t w (r, ne) = record {
  ends = λ q. ne (cc);
  whole = λ v q. absurd (cc);
  touches = r.touches;
  size = r.size;
  behind = r.behind;
  kept = λ ro. absurd (cc);
}

writable-Yields : (b : Buffer) (len : ℕ) → Yields (λ _. b.readonly ≡ false) (writable_bytes b len)
unfolding writable_bytes
writable-Yields b len =
    if-Yields (λ _. b.readonly ≡ false) b.readonly _ _ (λ _ e. cc)
      λ ro. if-Yields (λ _. b.readonly ≡ false) (ltb (length b.bytes) len) _ _ (λ _ e. cc) λ _. ro

checked :
    (d : NfcDisk) (b : Buffer) (len : ℕ) (x : Result (Unit {0})) (run : Result ReadResult × Reading)
    → Yields (λ _. b.readonly ≡ false) x
    → Outcome
        (Reads len)
        (λ v. v.uncompressed_length ≡ len)
        (record { disk = d; buf = b.bytes })
        run.0
        run.1
    → ReadEnds d b len (elim x [ err e ↦ (err e, d, b) | ok _ ↦ finish_read b run ])
checked d b len (err e) run ne o = refused d b len e ne
checked d b len (ok a) run ro o = finished d b len run.0 run.1 ro o

-- Whatever the server and the network do, `readinto`, with and without `skip_decompression`,
-- returns or raises within its rounds. If it returns, the length it names is that of the request.
-- It changes no field of the disk but the operation id, which does not fall, and the socket, which
-- stays open or closed and keeps what was sent; it keeps the length of the buffer and the bytes
-- behind the request, and leaves a read-only buffer as it is.
pub readinto-ReadEnds :
    (lz : Codec) (start_sector num_sectors : ℕ) (b : Buffer) (skip : Bool) (d : NfcDisk)
    → ReadEnds d b (num_sectors * d.sector_size) (readinto lz start_sector num_sectors b skip d)
unfolding readinto
readinto-ReadEnds lz start_sector num_sectors b skip d =
    let len : ℕ = num_sectors * d.sector_size in
    let s : Reading = record { disk = d; buf = b.bytes } in
    elim (Bool-cases (ltb num_sectors 1)) [
      | inl few ↦ rw few (refused d b len (value_error no_sectors) (λ e. cc))
      | inr some_sectors ↦ rw some_sectors (
          checked d b len (writable_bytes b len) (transfer lz start_sector len skip s)
            (writable-Yields b len) ((transfer-Runs lz start_sector len skip).at s))
    ]
