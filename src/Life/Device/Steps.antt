-- ===== src/Life/Device/Steps.antt =====
-- One call of a sequence against one step of the block device (openvixdisklib/nfc_open.py).
use open_vix_disk_lib.Prelude.{ℕ, ◌+◌, ◌≡◌, refl, List, ◌∷◌, arith, length}
use open_vix_disk_lib.Error.{Error, Result, err}
use open_vix_disk_lib.Struct.{Bytes}
use open_vix_disk_lib.Conn.{Conn}
use open_vix_disk_lib.Conn.Receive.{Delivers}
use open_vix_disk_lib.Conn.Send.{CanSend}
use open_vix_disk_lib.Fastlz.{Codec}
use open_vix_disk_lib.Aio.{NfcDisk}
use open_vix_disk_lib.Life.Device.{Op, device_step, perform, Serves, CanRun}

-- One call of the program and one step of the device, and the rest of the run after them.
abbrev pub Stepped : Codec → Op → List Op → NfcDisk → Bytes → Bytes → Type 0
Stepped lz op ops d disk final =
    (r : Result Bytes) × (d' : NfcDisk) × (disk' stream' : Bytes) × (perform lz op d ≡ (r, d'))
    × (device_step d.sector_size op disk ≡ (r, disk'))
    × (d'.sector_size ≡ d.sector_size)
    × CanRun d' ops (length disk')
    × Serves lz ops d' disk' stream' final
    × Delivers d'.sock.incoming stream'

-- A call that is refused changes nothing.
pub refused_CanRun :
    (d : NfcDisk) (op : Op) (ops : List Op) (room : ℕ)
    → CanRun d (op ∷ ops) room
    → CanRun d ops room
refused_CanRun d op ops room can = record {
  can_send = can.can_send;
  op_ids_fit = let h = can.op_ids_fit in omega arith;
  handle_fits = can.handle_fits;
  buffer = can.buffer;
  fitting = can.fitting.1;
}

pub served_CanRun :
    (d : NfcDisk) (c : Conn) (op : Op) (ops : List Op) (room : ℕ)
    → CanSend c
    → CanRun d (op ∷ ops) room
    → CanRun (record d { op_id = d.op_id + 1; sock = c }) ops room
served_CanRun d c op ops room cs can = record {
  can_send = cs;
  op_ids_fit = let h = can.op_ids_fit in omega arith;
  handle_fits = can.handle_fits;
  buffer = can.buffer;
  fitting = can.fitting.1;
}

pub refused-Stepped :
    (lz : Codec) (op : Op) (ops : List Op) (d : NfcDisk) (disk stream final : Bytes) (e : Error)
    → perform lz op d ≡ (err e, d)
    → device_step d.sector_size op disk ≡ (err e, disk)
    → CanRun d (op ∷ ops) (length disk)
    → Serves lz ops d disk stream final
    → Delivers d.sock.incoming stream
    → Stepped lz op ops d disk final
refused-Stepped lz op ops d disk stream final e run_e step_e can served del = (
  err e,
  d,
  disk,
  stream,
  run_e,
  step_e,
  refl,
  refused_CanRun d op ops (length disk) can,
  served,
  del,
)
