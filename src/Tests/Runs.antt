-- ===== src/Tests/Runs.antt =====
-- A sequence of calls on a disk of two-byte sectors, against the block device.
use open_vix_disk_lib.Prelude.{
  ◌≡◌, refl, sym, ap, ◌∙◌, ◌*◌, ℕ, ◌<◌, arith, List, [], ◌∷◌, ◌++◌, All, take, drop, blit,
  take-drop-blit, subst,
}
use open_vix_disk_lib.Struct.{Bytes, le}
use open_vix_disk_lib.Conn.{Arrival, piece}
use open_vix_disk_lib.Conn.Receive.{Delivers}
use open_vix_disk_lib.AioMsg
use open_vix_disk_lib.Aio.Frames.{frame}
use open_vix_disk_lib.Struct.Laws.{Fits}
use open_vix_disk_lib.Conn.Send.{CanSend}
use open_vix_disk_lib.Aio.{NfcDisk}
use open_vix_disk_lib.Read.Asked.{server_read, read-sent, server_read_lem}
use open_vix_disk_lib.Read.Reassembly.{replies, request_fields, request}
use open_vix_disk_lib.Read.Contents.{IsPartition}
use open_vix_disk_lib.Write.{write}
use open_vix_disk_lib.Write.Sent.{CanWrite, store}
use open_vix_disk_lib.Write.Whole.{write_stores}
use open_vix_disk_lib.Error.{Result, ok}
use open_vix_disk_lib.Aio.Frames.{IsU32}
use open_vix_disk_lib.Fastlz.{Codec}
use open_vix_disk_lib.Read.{read}
use open_vix_disk_lib.Write.Fragments.{Expected, expected}
use open_vix_disk_lib.Life.Device.Answered.{append_cancel}
use open_vix_disk_lib.Life.Device.{Op, read_sectors, write_sectors, device_run, run, Serves, CanRun}
use open_vix_disk_lib.Life.Device.Refines.{run-device_run}
use open_vix_disk_lib.Tests.{stored, stored-IsLawful, disk_with, conn_with}
use open_vix_disk_lib.Tests.Disk.{fragments, contents, fragments-Accepted, fragments-IsPartition}

-- The acknowledgement of a write, and the answer to the read behind it.
abbrev answers : Bytes
answers = frame AioMsg.io 7 [] (replies 8 fragments ++ [])

abbrev both : List Arrival
both = piece (take 20 answers) ∷ piece (drop 20 answers) ∷ []

both-Delivers : Delivers both answers
unfolding le
both-Delivers = record { pieces = (tt, (tt, tt)); bytes = refl }

both-CanWrite : CanWrite (disk_with both) 1 2 contents
both-CanWrite = record {
  some = omega arith;
  size = refl;
  buffer = omega arith;
  can_send = record { is_open = refl; no_faults = refl };
  op_id_fits = omega arith;
  handle_fits = omega arith;
  offset_fits = omega arith;
  size_fits = omega arith;
}

-- The disk of the server, before and after.
abbrev platter : Bytes
platter = 0 ∷ 0 ∷ 0 ∷ 0 ∷ 0 ∷ 0 ∷ 9 ∷ []

abbrev platter_after : Bytes
platter_after = blit 2 contents platter

-- A write, a read of the same sectors, and a read of no sectors, which is refused.
abbrev ops : List Op
ops = write_sectors 1 2 contents ∷ read_sectors 1 2 ∷ read_sectors 4 0 ∷ []

-- The server has one request before it, and reads one offset and length from it.
asked_once :
    (lz : Codec) (d : NfcDisk) (s n : ℕ) (fr : Bytes) (offset len : ℕ)
    → CanSend d.sock
    → IsU32 d.op_id
    → All Fits (request_fields d s (n * d.sector_size))
    → 0 < n
    → (read lz s n d).1.sock.sent ≡ d.sock.sent ++ (fr ∷ [])
    → server_read d.handle d.op_id fr ≡ ok (offset, len)
    → (offset ≡ s * d.sector_size) × (len ≡ n * d.sector_size)
asked_once lz d s n fr offset len can ho fits some_ sent asked =
    let one : fr ∷ [] ≡ request d s (n * d.sector_size) ∷ [] =
      append_cancel d.sock.sent _ _ (sym sent ∙ read-sent lz d s n can ho fits some_) in
    let same : fr ≡ request d s (n * d.sector_size) = cc in
    let read_back : ok (offset, len) ≡ ok (s * d.sector_size, n * d.sector_size) =
      sym asked
      ∙ ap (server_read d.handle d.op_id) same
      ∙ server_read_lem lz d s (n * d.sector_size) fits ho in
    let pair : (offset, len) ≡ (s * d.sector_size, n * d.sector_size) = cc (read_back) in
    (ap (λ (q : ℕ × ℕ). q.0) pair, ap (λ (q : ℕ × ℕ). q.1) pair)

-- The frames that a call has sent are stored in one way.
stored_once :
    (lz : Codec) (q : Expected) (said sent frames : List Bytes) (disk disk' disk'' : Bytes)
    → said ++ frames ≡ said ++ sent
    → store lz q sent disk ≡ ok disk'
    → store lz q frames disk ≡ ok disk''
    → disk' ≡ disk''
stored_once lz q said sent frames disk disk' disk'' e stored stored' =
    let same : frames ≡ sent = append_cancel said frames sent e in
    let twice : ok disk' ≡ ok disk'' =
      sym stored ∙ ap (λ fs. store lz q fs disk) (sym same) ∙ stored' in
    cc

-- The read behind the write, on the disk that the write has left.
read_served :
    (rest : List Arrival) (frames : List Bytes)
    → Serves stored
        (read_sectors 1 2 ∷ read_sectors 4 0 ∷ [])
        (record (disk_with both) { op_id = 8; sock = record (conn_with rest) { sent = frames } })
        platter_after
        (replies 8 fragments ++ [])
        platter_after
read_served rest frames asked offset len sent read_it =
    let d : NfcDisk = record (disk_with both) {
      op_id = 8;
      sock = record (conn_with rest) { sent = frames };
    } in
    let can : CanSend d.sock = record { is_open = refl; no_faults = refl } in
    let fits : All Fits (request_fields d 1 4) = omega arith in
    let (place, long) =
      asked_once stored d 1 2 asked offset len can (omega arith) fits (omega arith) sent read_it in
    let cut = take-drop-blit 2 contents platter (omega arith) in
    rw (place, long)
      (
        fragments,
        [],
        refl,
        fragments-Accepted,
        subst (λ t. IsPartition t fragments) (sym cut) fragments-IsPartition,
        refl,
      )

served : Serves stored ops (disk_with both) platter answers platter_after
served =
    let (frames, rest, e, kept, _, _) =
      write_stores stored (disk_with both) 1 2 contents [] (replies 8 fragments ++ []) platter
        stored-IsLawful both-CanWrite (omega arith) both-Delivers (omega arith) in
    let said : (write stored 1 2 contents (disk_with both)).1.sock.sent ≡ [] ++ frames =
      ap (λ (p : Result (Unit {0}) × NfcDisk). p.1.sock.sent) e in
    (
      [],
      replies 8 fragments ++ [],
      refl,
      omega arith,
      λ sent disk' e_sent stored_them.
          let after : disk' ≡ platter_after =
            stored_once stored (expected (disk_with both) 7 4) [] sent frames platter disk'
              platter_after (sym said ∙ e_sent) stored_them kept in
          rw (after, e) (read_served rest frames),
    )

ops-CanRun : CanRun (disk_with both) ops 7
ops-CanRun = record {
  can_send = record { is_open = refl; no_faults = refl };
  op_ids_fit = omega arith;
  handle_fits = omega arith;
  buffer = omega arith;
  fitting = (λ _. omega arith, (λ _. omega arith, (λ h. absurd cc, tt)));
}

run-device_run_example :
    device_run 2 ops platter ≡ ((run stored ops (disk_with both)).0, platter_after)
run-device_run_example =
    run-device_run stored ops (disk_with both) platter answers platter_after stored-IsLawful
      ops-CanRun served both-Delivers
