-- ===== src/Life/Device/Reads.antt =====
-- A `read` in a sequence of calls (openvixdisklib/nfc_open.py) against a step of the block device.
use open_vix_disk_lib.Prelude.{
  ℕ, ◌+◌, ◌*◌, ◌<◌, ◌≡◌, refl, inl, inr, false, none, List, ◌∷◌, arith, ltb, length, length-take,
  length-drop, take, drop, Bool-cases, ltb_false→le,
}
use open_vix_disk_lib.Error.{ok, value_error, no_sectors}
use open_vix_disk_lib.Struct.{Bytes}
use open_vix_disk_lib.Conn.Receive.{Delivers}
use open_vix_disk_lib.Fastlz.{Codec}
use open_vix_disk_lib.Aio.{NfcDisk}
use open_vix_disk_lib.Read.Reassembly.{request}
use open_vix_disk_lib.Read.Asked.{server_read_lem, read-sent}
use open_vix_disk_lib.Life.Device.{
  rejection, Op, read_sectors, device_step, perform, Serves, CanRun,
}
use open_vix_disk_lib.Life.Device.Answered.{read_answered, read_refused}
use open_vix_disk_lib.Life.Device.Steps.{Stepped, served_CanRun, refused-Stepped}

module _ (lz : Codec) (ops : List Op) (d : NfcDisk) (disk stream final : Bytes) where
  read-Stepped_admitted :
      (s n : ℕ)
      → ltb n 1 ≡ false
      → CanRun d (read_sectors s n ∷ ops) (length disk)
      → Serves lz (read_sectors s n ∷ ops) d disk stream final
      → Delivers d.sock.incoming stream
      → Stepped lz (read_sectors s n) ops d disk final
  unfolding perform
  read-Stepped_admitted s n t can served del =
      let admitted : rejection d.sector_size (read_sectors s n) ≡ none = rw (rejection, t) refl in
      let (reach, fits) = can.fitting.0 admitted in
      let len : ℕ = n * d.sector_size in
      let contents : Bytes = take len (drop (s * d.sector_size) disk) in
      let size : length contents ≡ len = omega (
        arith,
        length-take len (drop (s * d.sector_size) disk),
        length-drop (s * d.sector_size) disk,
      ) in
      let ho = can.op_ids_fit in
      let some_ : 0 < n = ltb_false→le n 1 t in
      let (fs, ys, e, acc, part, more) =
        (rw (Serves, t) at served) (request d s len) (s * d.sector_size) len
          (read-sent lz d s n can.can_send (omega arith) fits some_)
          (server_read_lem lz d s len fits (omega arith)) in
      let (c, run_e, cs, del') =
        read_answered lz d s n contents fs ys can.can_send (omega arith) fits some_ size acc part
          (rw e at del) in
      (
        ok contents,
        record d { op_id = d.op_id + 1; sock = c },
        disk,
        ys,
        run_e,
        rw (device_step, t) refl,
        refl,
        served_CanRun d c (read_sectors s n) ops (length disk) cs can,
        rw run_e at more,
        del',
      )

  pub read-Stepped :
      (s n : ℕ)
      → CanRun d (read_sectors s n ∷ ops) (length disk)
      → Serves lz (read_sectors s n ∷ ops) d disk stream final
      → Delivers d.sock.incoming stream
      → Stepped lz (read_sectors s n) ops d disk final
  read-Stepped s n can served del = elim (Bool-cases (ltb n 1)) [
    | inl t ↦
        refused-Stepped lz (read_sectors s n) ops d disk stream final (value_error no_sectors)
          (read_refused lz d s n t) (rw (device_step, t) refl) can (rw (Serves, t) at served) del
    | inr t ↦ read-Stepped_admitted s n t can served del
  ]
