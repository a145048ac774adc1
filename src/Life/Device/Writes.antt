-- ===== src/Life/Device/Writes.antt =====
-- A `write` in a sequence of calls (openvixdisklib/nfc_open.py) against a step of the block device.
use open_vix_disk_lib.Prelude.{
  ℕ, ◌+◌, ◌*◌, ◌≡◌, refl, ap, inl, inr, false, true, none, List, [], ◌∷◌, ◌++◌, arith, ltb, ◌==◌,
  ==_iff, length, blit, length-blit, Bool-cases, ltb_false→le,
}
use open_vix_disk_lib.Error.{Result, ok, value_error, no_sectors, write_length}
use open_vix_disk_lib.Struct.{Bytes}
use open_vix_disk_lib.Conn.{Conn}
use open_vix_disk_lib.Conn.Receive.{Delivers}
use open_vix_disk_lib.Fastlz.{Codec, IsLawful}
use open_vix_disk_lib.Aio.{NfcDisk}
use open_vix_disk_lib.Write.{write}
use open_vix_disk_lib.Write.Sent.{CanWrite}
use open_vix_disk_lib.Write.Whole.{write_stores}
use open_vix_disk_lib.Life.Device.{rejection, Op, write_sectors, device_step, Serves, CanRun}
use open_vix_disk_lib.Life.Device.Answered.{write_refused, write_wrong_length, perform_written}
use open_vix_disk_lib.Life.Device.Steps.{Stepped, served_CanRun, refused-Stepped}

module _ (lz : Codec) (law : IsLawful lz) (ops : List Op) (d : NfcDisk)
    (disk stream final : Bytes) where
  write-Stepped_admitted :
      (s n : ℕ) (bytes : Bytes)
      → ltb n 1 ≡ false
      → (length bytes == n * d.sector_size) ≡ true
      → CanRun d (write_sectors s n bytes ∷ ops) (length disk)
      → Serves lz (write_sectors s n bytes ∷ ops) d disk stream final
      → Delivers d.sock.incoming stream
      → Stepped lz (write_sectors s n bytes) ops d disk final
  write-Stepped_admitted s n bytes t u can served del =
      let (body, ys, e, hb, more) = rw (Serves, t, u) at served in
      let admitted : rejection d.sector_size (write_sectors s n bytes) ≡ none =
        rw (rejection, t, u) refl in
      let (reach, off_fits, size_fits) = can.fitting.0 admitted in
      let ho = can.op_ids_fit in
      let can' : CanWrite d s n bytes = record {
        some = ltb_false→le n 1 t;
        size = (==_iff (length bytes) (n * d.sector_size)).0 u;
        buffer = can.buffer;
        can_send = can.can_send;
        op_id_fits = omega arith;
        handle_fits = can.handle_fits;
        offset_fits = off_fits;
        size_fits = size_fits;
      } in
      let (frames, rest, run_e, stored', _, del') =
        write_stores lz d s n bytes body ys disk law can' hb (rw e at del) reach in
      let c : Conn = record d.sock { incoming = rest; sent = d.sock.sent ++ frames } in
      let said : (write lz s n bytes d).1.sock.sent ≡ d.sock.sent ++ frames =
        ap (λ (p : Result (Unit {0}) × NfcDisk). p.1.sock.sent) run_e in
      let lb = length-blit (s * d.sector_size) bytes disk in
      (
        ok [],
        record d { op_id = d.op_id + 1; sock = c },
        blit (s * d.sector_size) bytes disk,
        ys,
        perform_written lz d (record d { op_id = d.op_id + 1; sock = c }) s n bytes run_e,
        rw (device_step, t, u) refl,
        refl,
        rw lb (
            served_CanRun d c (write_sectors s n bytes) ops (length disk)
              (record { is_open = can.can_send.is_open; no_faults = can.can_send.no_faults }) can),
        rw run_e at (more frames (blit (s * d.sector_size) bytes disk) said stored'),
        del',
      )

  pub write-Stepped :
      (s n : ℕ) (bytes : Bytes)
      → CanRun d (write_sectors s n bytes ∷ ops) (length disk)
      → Serves lz (write_sectors s n bytes ∷ ops) d disk stream final
      → Delivers d.sock.incoming stream
      → Stepped lz (write_sectors s n bytes) ops d disk final
  write-Stepped s n bytes can served del = elim (Bool-cases (ltb n 1)) [
    | inl t ↦
        refused-Stepped lz (write_sectors s n bytes) ops d disk stream final
          (value_error no_sectors) (write_refused lz d s n bytes t) (rw (device_step, t) refl) can
          (rw (Serves, t) at served) del
    | inr t ↦ elim (Bool-cases (length bytes == n * d.sector_size)) [
      | inl u ↦ write-Stepped_admitted s n bytes t u can served del
      | inr u ↦
          refused-Stepped lz (write_sectors s n bytes) ops d disk stream final
            (value_error (write_length (length bytes) (n * d.sector_size)))
            (write_wrong_length lz d s n bytes t u) (rw (device_step, t, u) refl) can
            (rw (Serves, t, u) at served) del
    ]
  ]
