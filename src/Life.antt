-- ===== src/Life.antt =====
-- The calls of `NfcDisk` (openvixdisklib/nfc_open.py) in any order, against any server: `read`,
-- `readinto`, `write` and `close` as steps on the disk, and what every sequence of them keeps.
pub mod With
pub mod Device
use open_vix_disk_lib.Prelude.{
  ℕ, ◌+◌, ◌*◌, ◌≤◌, ◌<◌, ◌≡◌, refl, sym, ap, ◌∙◌, subst, inl, inr, Bool, true, false, List, [], ◌∷◌,
  ◌++◌, append_assoc, arith, ltb, replicate, Bool-cases, if◌then◌else◌,
}
use open_vix_disk_lib.Error.{Error, Result, ok, err, value_error, no_sectors}
use open_vix_disk_lib.Exec.{finally}
use open_vix_disk_lib.Exec.Runs.{Outcome, Any}
use open_vix_disk_lib.Struct.{Bytes}
use open_vix_disk_lib.Conn.{Conn, close}
use open_vix_disk_lib.Fastlz.{Codec}
use open_vix_disk_lib.Aio.{NfcDisk}
use open_vix_disk_lib.Aio.Touches.{Speaks, Speaks-Preorder, Touches, Touches-Preorder}
use open_vix_disk_lib.Read.Fragment.{ReadResult, Buffer}
use open_vix_disk_lib.Read.{readinto, read, finish_bytes}
use open_vix_disk_lib.Read.Total.{readinto-ReadEnds}
use open_vix_disk_lib.Write.{write}
use open_vix_disk_lib.Write.Total.{write-WriteEnds}
use open_vix_disk_lib.Open.{close_disk, close_steps, close_sock}
use open_vix_disk_lib.Open.Ends.{close_steps-Runs}

-- One call, with any arguments.
pub data Call (lz : Codec) : NfcDisk → NfcDisk → Type 0 where
  readintos :
      (start_sector num_sectors : ℕ) (b : Buffer) (skip : Bool) (d : NfcDisk)
      → Call lz d (readinto lz start_sector num_sectors b skip d).1
  reads :
      (start_sector num_sectors : ℕ) (d : NfcDisk)
      → Call lz d (read lz start_sector num_sectors d).1
  writes :
      (start_sector num_sectors : ℕ) (bytes : Bytes) (d : NfcDisk)
      → Call lz d (write lz start_sector num_sectors bytes d).1
  closes : (d : NfcDisk) → Call lz d (close_disk d).1

-- The calls made so far, the last one outermost.
pub data Calls (lz : Codec) (d : NfcDisk) : NfcDisk → Type 0 where
  none_yet : Calls lz d d
  and_then_one : {e f : NfcDisk} → Calls lz d e → Call lz e f → Calls lz d f

-- A disk that is marked as closed has no open socket, and its buffer has room for a byte.
pub record IsValid (d : NfcDisk) : Type 0 where
  pub shut : d.closed ≡ true → d.sock.is_open ≡ false
  pub buffer : 0 < d.aio_buffer_size

-- What a call, or a sequence of calls, does to a disk.
pub record Ages (d e : NfcDisk) : Type 0 where
  pub fixed : e ≡ record d { op_id = e.op_id; sock = e.sock; closed = e.closed }
  pub grows : d.op_id ≤ e.op_id
  pub stays : d.closed ≡ true → e.closed ≡ true
  pub frames : List Bytes
  pub sent : e.sock.sent ≡ d.sock.sent ++ frames
  pub silent : d.sock.is_open ≡ false → frames ≡ []
  pub shut : d.sock.is_open ≡ false → e.sock.is_open ≡ false
  pub valid : IsValid e

Ages-refl : (d : NfcDisk) → IsValid d → Ages d d
Ages-refl d v =
    let s = Speaks-Preorder.self d.sock in
    record {
      fixed = refl;
      grows = omega arith;
      stays = λ h. h;
      frames = s.more;
      sent = s.sent;
      silent = s.silent;
      shut = λ h. h;
      valid = v;
    }

Ages-trans : (d e f : NfcDisk) → Ages d e → Ages e f → Ages d f
Ages-trans d e f p q = record {
  fixed =
      q.fixed
      ∙ ap (λ (g : NfcDisk). record g { op_id = f.op_id; sock = f.sock; closed = f.closed })
          p.fixed;
  grows = omega (arith, p.grows, q.grows);
  stays = λ h. q.stays (p.stays h);
  frames = p.frames ++ q.frames;
  sent =
      q.sent
      ∙ ap (λ (t : List Bytes). t ++ q.frames) p.sent
      ∙ append_assoc d.sock.sent p.frames q.frames;
  silent = λ h. rw (p.silent h) (q.silent (p.shut h));
  shut = λ h. q.shut (p.shut h);
  valid = q.valid;
}

Touches-Ages : (d e : NfcDisk) → IsValid d → Touches d e → Ages d e
Touches-Ages d e v t =
    let same : e.closed ≡ d.closed = ap (λ (g : NfcDisk). g.closed) t.fixed in
    let size : e.aio_buffer_size ≡ d.aio_buffer_size =
      ap (λ (g : NfcDisk). g.aio_buffer_size) t.fixed in
    record {
      fixed =
          t.fixed
          ∙ ap (λ (b : Bool). record d { op_id = e.op_id; sock = e.sock; closed = b }) (sym same);
      grows = t.grows;
      stays = λ h. same ∙ h;
      frames = t.speaks.more;
      sent = t.speaks.sent;
      silent = t.speaks.silent;
      shut = λ h. t.speaks.is_open ∙ h;
      valid = record { shut = λ h. t.speaks.is_open ∙ v.shut (sym same ∙ h); buffer = omega arith };
    }

Outcome-Touches :
    (d : NfcDisk) (x : Result (Unit {0})) (e : NfcDisk) → Outcome Touches Any d x e → Touches d e
Outcome-Touches d (ok u) e o = o.0
Outcome-Touches d (err f) e o = o.0

-- `close`: the marks apart, it touches the disk, and it shuts the socket.
closing-Ages :
    (d t : NfcDisk) → IsValid d → Touches (record d { closed = true }) t → Ages d (close_sock t)
closing-Ages d t v r =
    let same : t.closed ≡ true = ap (λ (g : NfcDisk). g.closed) r.fixed in
    let size : t.aio_buffer_size ≡ d.aio_buffer_size =
      ap (λ (g : NfcDisk). g.aio_buffer_size) r.fixed in
    record {
      fixed = ap (λ (g : NfcDisk). record g { sock = close t.sock; closed = t.closed }) r.fixed;
      grows = r.grows;
      stays = λ h. same;
      frames = r.speaks.more;
      sent = r.speaks.sent;
      silent = r.speaks.silent;
      shut = λ h. refl;
      valid = record { shut = λ h. refl; buffer = omega arith };
    }

either-Ages :
    (b : Bool) (d : NfcDisk)
    → IsValid d
    → Ages d
        (if b then (ok tt, d) else finally close_sock close_steps (record d { closed = true })).1
either-Ages true d v = Ages-refl d v
either-Ages false d v =
    let d' : NfcDisk = record d { closed = true } in
    closing-Ages d (close_steps d').1 v
      (Outcome-Touches d' (close_steps d').0 (close_steps d').1 (close_steps-Runs.at d'))

close_disk-Ages : (d : NfcDisk) → IsValid d → Ages d (close_disk d).1
unfolding close_disk
close_disk-Ages d v = either-Ages d.closed d v

finish_bytes_disk : (r : Result ReadResult × NfcDisk × Buffer) → (finish_bytes r).1 ≡ r.1
unfolding finish_bytes
finish_bytes_disk (ok v, d, b) = refl
finish_bytes_disk (err e, d, b) = refl

unless-Touches :
    (b : Bool) (d : NfcDisk) (e : Error) (r : Result Bytes × NfcDisk)
    → Touches d r.1
    → Touches d (if b then (err e, d) else r).1
unless-Touches true d e r t = Touches-Preorder.self d
unless-Touches false d e r t = t

read-Touches :
    (lz : Codec) (start_sector num_sectors : ℕ) (d : NfcDisk)
    → Touches d (read lz start_sector num_sectors d).1
unfolding read
read-Touches lz start_sector num_sectors d =
    let b : Buffer = record {
      readonly = false;
      bytes = replicate (num_sectors * d.sector_size) 0;
    } in
    let r = readinto lz start_sector num_sectors b false d in
    unless-Touches (ltb num_sectors 1) d (value_error no_sectors) (finish_bytes r) (
      subst (λ e. Touches d e) (sym (finish_bytes_disk r))
        (readinto-ReadEnds lz start_sector num_sectors b false d).touches)

Call-Ages : (lz : Codec) {d e : NfcDisk} → IsValid d → Call lz d e → Ages d e
Call-Ages lz v (readintos start_sector num_sectors b skip d) =
    Touches-Ages d _ v (readinto-ReadEnds lz start_sector num_sectors b skip d).touches
Call-Ages lz v (reads start_sector num_sectors d) =
    Touches-Ages d _ v (read-Touches lz start_sector num_sectors d)
Call-Ages lz v (writes start_sector num_sectors bytes d) =
    Touches-Ages d _ v (write-WriteEnds lz start_sector bytes d v.buffer num_sectors).touches
Call-Ages lz v (closes d) = close_disk-Ages d v

-- From a disk whose buffer has room for a byte, and whose socket is closed if the disk is marked as
-- closed, any sequence of calls of `readinto`, `read`, `write` and `close`, with any arguments and
-- against any server, keeps these two conditions and every field but the operation id, the socket
-- and the mark; the operation id does not fall, the mark is not taken back, what was sent stays
-- sent, and over a closed socket nothing more goes out and the socket stays closed.
pub Calls-Ages : (lz : Codec) {d e : NfcDisk} → IsValid d → Calls lz d e → Ages d e
Calls-Ages lz {d} v none_yet = Ages-refl d v
Calls-Ages lz {d} v (and_then_one {e} {f} before call) =
    let p = Calls-Ages lz v before in Ages-trans d e f p (Call-Ages lz p.valid call)
