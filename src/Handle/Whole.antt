-- ===== src/Handle/Whole.antt =====
-- A disk that is opened, read and closed through the handle (openvixdisklib/openvixdisklib.py), with
-- hosts that follow the protocols.
use open_vix_disk_lib.Prelude.{
  ℕ, ◌+◌, ◌*◌, ◌^◌, ◌<◌, ◌≤◌, ◌≡◌, refl, ap, ◌∙◌, true, false, List, [], ◌∷◌, ◌++◌, arith, length,
  drop,
}
use open_vix_disk_lib.Error.{Result, ok, err}
use open_vix_disk_lib.Exec.{Exec}
use open_vix_disk_lib.Struct.{Bytes}
use open_vix_disk_lib.Text.{Text}
use open_vix_disk_lib.Conn.{Conn}
use open_vix_disk_lib.Conn.Receive.{Delivers}
use open_vix_disk_lib.Fastlz.{Codec}
use open_vix_disk_lib.AioMsg
use open_vix_disk_lib.Aio.{NfcDisk}
use open_vix_disk_lib.Aio.Frames.{IsU32, frame}
use open_vix_disk_lib.Read.Fragment.{Buffer, ReadResult}
use open_vix_disk_lib.Read.{readinto}
use open_vix_disk_lib.Read.Replies.{Reply}
use open_vix_disk_lib.Read.Reassembly.{
  replies, wire_total, Accepted, CanRead, request, readinto-replies,
}
use open_vix_disk_lib.Read.Contents.{IsPartition, placed_contents, Accepted-Inside}
use open_vix_disk_lib.Open.{close_disk}
use open_vix_disk_lib.Open.Prepared.{Answers}
use open_vix_disk_lib.Open.Opened.{opened}
use open_vix_disk_lib.Open.Closed.{CanClose, gone, close_disk_lem}
use open_vix_disk_lib.World.{World, Env, Ticket, put_disk, close_conn}
use open_vix_disk_lib.World.Conns.{on_disk_lem, put_disk-same, disks-close_conn}
use open_vix_disk_lib.Vim.{register_nfc_types}
use open_vix_disk_lib.Handle.{
  Connection, DiskHandle, is_read_only, open_args, read, close, close_after, open_handle,
}
use open_vix_disk_lib.Handle.Opened.{
  Gives, TakesOver, Accepts, Greets, CanEnter, session_frames, open_enter_opens,
}

-- The body of the `with` statement: one `read`, with the buffer as it leaves it.
with_buffer : Result ReadResult × Buffer × World → Result (ReadResult × Buffer) × World
with_buffer (ok q, b, w) = (ok (q, b), w)
with_buffer (err e, b, w) = (err e, w)

unfoldable pub reading : Codec → ℕ → ℕ → Buffer → DiskHandle → Exec World (ReadResult × Buffer)
unfolding with_buffer
reading lz start_sector num_sectors b h w =
    with_buffer (read lz h start_sector num_sectors b false w)

reading_lem :
    (lz : Codec) (start_sector num_sectors : ℕ) (b b' : Buffer) (h : DiskHandle) (w : World)
    (d d' : NfcDisk) (q : ReadResult)
    → w.disks h.disk ≡ d
    → readinto lz start_sector num_sectors b false d ≡ (ok q, d', b')
    → reading lz start_sector num_sectors b h w ≡ (ok (q, b'), put_disk h.disk d' w)
unfolding reading with_buffer read
reading_lem lz start_sector num_sectors b b' h w d d' q e e' = rw (e, e') refl

-- `close` of a disk that is answered.
close_after_lem :
    {A : Type 0} (h : DiskHandle) (r : Result A) (w : World) (d d' : NfcDisk)
    → w.disks h.disk ≡ d
    → close_disk d ≡ (ok tt, d')
    → close_after h (r, w) ≡ (r, close_conn h.authd_sock (put_disk h.disk d' w))
unfolding close_after close
close_after_lem h r w d d' e e' = rw (on_disk_lem h.disk close_disk w d (ok tt) d' e e') refl

-- What a read of the whole contents returns, and the buffer after it.
abbrev pub lengths : Bytes → List Reply → ReadResult
lengths contents fs = record {
  uncompressed_length = length contents;
  compressed_length = wire_total fs;
  fragments = [];
}

abbrev pub filled : Buffer → Bytes → Buffer
filled b contents = record b { bytes = contents ++ drop (length contents) b.bytes }

-- A disk that is read once and closed.
abbrev ReadAndClosed : Codec → NfcDisk → Buffer → ℕ → ℕ → Bytes → List Reply → Bytes → Type 0
ReadAndClosed lz d b start_sector num_sectors contents fs ys =
    (d' d'' : NfcDisk) × (readinto lz start_sector num_sectors b false d
      ≡ (ok (lengths contents fs), d', filled b contents))
    × (close_disk d' ≡ (ok tt, d''))
    × (d''.closed ≡ true)
    × (d''.sock.is_open ≡ false)
    × Delivers d''.sock.incoming ys

read_and_closed :
    (lz : Codec) (d : NfcDisk) (b : Buffer) (start_sector num_sectors : ℕ) (contents : Bytes)
    (fs : List Reply) (file session ys : Bytes)
    → CanRead d b start_sector num_sectors
    → d.closed ≡ false
    → d.handle < 2 ^ 64
    → d.op_id + 2 < 2 ^ 32
    → length contents ≡ num_sectors * d.sector_size
    → Accepted lz (length contents) [] fs
    → IsPartition contents fs
    → IsU32 (length file)
    → IsU32 (length session)
    → Delivers d.sock.incoming (
        replies d.op_id fs
        ++ frame AioMsg.close_file
            (d.op_id + 1)
            file
            (frame AioMsg.close_session (d.op_id + 1 + 1) session ys))
    → ReadAndClosed lz d b start_sector num_sectors contents fs ys
read_and_closed lz d b start_sector num_sectors contents fs file session ys can open_yet hh ho size
      acc part hf hs del =
    let farewells : Bytes =
      frame AioMsg.close_file (d.op_id + 1) file
        (frame AioMsg.close_session (d.op_id + 1 + 1) session ys) in
    let len : ℕ = num_sectors * d.sector_size in
    let (rest, e, del') =
      readinto-replies lz d b start_sector num_sectors can fs farewells (rw size at acc)
        (part.sum ∙ size) del in
    let d' : NfcDisk = record d {
      op_id = d.op_id + 1;
      sock = record d.sock {
        incoming = rest;
        sent = d.sock.sent ++ (request d start_sector len ∷ []);
      };
    } in
    let room : length contents ≤ length b.bytes = omega (arith, can.room) in
    let whole =
      placed_contents contents fs b.bytes part (Accepted-Inside lz (length contents) [] fs acc)
        room in
    let can' : CanClose d' = record {
      open_yet = open_yet;
      can_send = record { is_open = can.can_send.is_open; no_faults = can.can_send.no_faults };
      op_ids_fit = omega arith;
      handle_fits = hh;
    } in
    let (rest', e', del'') = close_disk_lem d' file session ys can' hf hs del' in
    (d', gone d' rest', rw (e, whole, size) refl, e', refl, refl, del'')

-- What the server sends after the replies to the four requests of the session.
abbrev pub afterwards : List Reply → Bytes → Bytes → Bytes → Bytes
afterwards fs file session ys =
    replies 4 fs ++ frame AioMsg.close_file 5 file (frame AioMsg.close_session 6 session ys)

module _ (env : Env) (conn : Connection) (path : Text) (flags compression size count : ℕ)
    (w : World) (ticket : Ticket) (nfc : Conn) (r : Answers) (lz : Codec) (b : Buffer)
    (start_sector num_sectors : ℕ) (contents : Bytes) (fs : List Reply)
    (file session ys : Bytes) where
  -- A disk on the transport "nbd" that is opened through the handle, read once and closed at the
  -- end of the `with` statement: if the flags and sizes are accepted, the host gives the ticket
  -- that the flags ask for, authd accepts the client and each command, the socket that is taken
  -- over takes its options, speaks NFC according to the protocol, answers the read with fragments
  -- of the contents of the sectors, raw or compressed and in any order, and answers the closing,
  -- and the numbers fit their formats, then `open` with this body returns both lengths of the read
  -- and the buffer with the contents; the disk is marked as closed, its socket is closed, and no
  -- byte behind the last reply is read.
  pub open_handle_reads :
      CanEnter conn flags (open_args path (is_read_only flags) compression size count)
      → Gives env conn.vm_moref (is_read_only flags) path ticket
      → Accepts env ticket conn.allow_untrusted (register_nfc_types env w)
      → TakesOver env nfc
      → (g : Greets
          (open_args path (is_read_only flags) compression size count)
          nfc
          r
          (afterwards fs file session ys))
      → CanRead
          (opened (open_args path (is_read_only flags) compression size count) r nfc [] [])
          b
          start_sector
          num_sectors
      → r.handle < 2 ^ 64
      → length contents ≡ num_sectors * r.sector_size
      → Accepted lz (length contents) [] fs
      → IsPartition contents fs
      → IsU32 (length file)
      → IsU32 (length session)
      → (i : ℕ) × (v : World) × (open_handle env conn path flags size count
            (reading lz start_sector num_sectors b)
            w
          ≡ (ok (lengths contents fs, filled b contents), v))
        × ((v.disks i).closed ≡ true)
        × ((v.disks i).sock.is_open ≡ false)
        × Delivers (v.disks i).sock.incoming ys
  unfolding open_handle
  open_handle_reads can gives acc_authd takes g can_read hh len acc part hf hs =
      let a = open_args path (is_read_only flags) compression size count in
      let (h, w1, rest, e, is_disk, _, del) =
        open_enter_opens env conn path flags compression size count w ticket nfc r
          (afterwards fs file session ys) can gives acc_authd takes g in
      let d : NfcDisk = opened a r nfc (session_frames a g) rest in
      let can_read' : CanRead d b start_sector num_sectors = record {
        some = can_read.some;
        writable = can_read.writable;
        room = can_read.room;
        can_send = record { is_open = g.can_send.is_open; no_faults = g.can_send.no_faults };
        op_id_fits = can_read.op_id_fits;
        fields_fit = can_read.fields_fit;
      } in
      let (d', d'', run_e, close_e, marked, shut, left) =
        read_and_closed lz d b start_sector num_sectors contents fs file session ys can_read' refl
          hh (omega arith) len acc part hf hs del in
      let did =
        reading_lem lz start_sector num_sectors b (filled b contents) h w1 d d'
          (lengths contents fs) is_disk run_e in
      let w2 : World = put_disk h.disk d' w1 in
      let closed_e =
        close_after_lem {A = ReadResult × Buffer} h (ok (lengths contents fs, filled b contents)) w2
          d' d'' (put_disk-same h.disk d' w1) close_e in
      let v : World = close_conn h.authd_sock (put_disk h.disk d'' w2) in
      let at_end : v.disks h.disk ≡ d'' =
        ap (λ (f : ℕ → NfcDisk). f h.disk) (disks-close_conn h.authd_sock (put_disk h.disk d'' w2))
        ∙ put_disk-same h.disk d'' w2 in
      (h.disk, v, rw (e, did, closed_e) refl, rw at_end marked, rw at_end shut, rw at_end left)
