-- ===== src/Life/Device/Refines.antt =====
-- A sequence of calls (openvixdisklib/nfc_open.py) against a run of the block device.
use open_vix_disk_lib.Prelude.{ℕ, ◌≡◌, refl, ◌∙◌, subst, List, [], ◌∷◌, length}
use open_vix_disk_lib.Error.{Result}
use open_vix_disk_lib.Struct.{Bytes}
use open_vix_disk_lib.Conn.Receive.{Delivers}
use open_vix_disk_lib.Fastlz.{Codec, IsLawful}
use open_vix_disk_lib.Aio.{NfcDisk}
use open_vix_disk_lib.Life.Device.{
  read_sectors, write_sectors, Serves, CanRun, Op, device_step, device_run, perform, run,
}
use open_vix_disk_lib.Life.Device.Steps.{Stepped}
use open_vix_disk_lib.Life.Device.Reads.{read-Stepped}
use open_vix_disk_lib.Life.Device.Writes.{write-Stepped}

op-Stepped :
    (lz : Codec) (op : Op) (ops : List Op) (d : NfcDisk) (disk stream final : Bytes)
    → IsLawful lz
    → CanRun d (op ∷ ops) (length disk)
    → Serves lz (op ∷ ops) d disk stream final
    → Delivers d.sock.incoming stream
    → Stepped lz op ops d disk final
op-Stepped lz (read_sectors s n) ops d disk stream final law =
    read-Stepped lz ops d disk stream final s n
op-Stepped lz (write_sectors s n bytes) ops d disk stream final law =
    write-Stepped lz law ops d disk stream final s n bytes

run_cons :
    (lz : Codec) (op : Op) (ops : List Op) (d d' : NfcDisk) (size : ℕ) (disk disk' final : Bytes)
    (r : Result Bytes)
    → perform lz op d ≡ (r, d')
    → device_step size op disk ≡ (r, disk')
    → device_run size ops disk' ≡ ((run lz ops d').0, final)
    → device_run size (op ∷ ops) disk ≡ ((run lz (op ∷ ops) d).0, final)
unfolding run device_run
run_cons lz op ops d d' size disk disk' final r e e' rest = rw (e, e', rest) refl

run_lem :
    (lz : Codec) (ops : List Op) (d : NfcDisk) (size : ℕ) (disk stream final : Bytes)
    → IsLawful lz
    → d.sector_size ≡ size
    → CanRun d ops (length disk)
    → Serves lz ops d disk stream final
    → Delivers d.sock.incoming stream
    → device_run size ops disk ≡ ((run lz ops d).0, final)
unfolding run device_run
run_lem lz [] d size disk stream final law z can served del = cc
run_lem lz (op ∷ ops) d size disk stream final law z can served del =
    let (r, d', disk', stream', e, e', same, can', served', del') =
      op-Stepped lz op ops d disk stream final law can served del in
    run_cons lz op ops d d' size disk disk' final r e
      (subst (λ k. device_step k op disk ≡ (r, disk')) z e')
      (run_lem lz ops d' size disk' stream' final law (same ∙ z) can' served' del')

-- With a lawful FastLZ module: a sequence of calls of `read` and `write`, in any order and with any
-- arguments, gives, call by call, what a block device gives that is a list of bytes: a read returns
-- the bytes of its sectors, a write puts its bytes at its sector, and a call for no sectors, or a
-- write whose data have another length than its sectors, raises its `ValueError` and changes
-- nothing; and the server ends with the bytes of the device. The conditions are that the socket can
-- send, that the numbers of the calls that are not refused fit their formats and lie on the disk,
-- that the server acknowledges each write, and that, as far as it takes what was sent, it serves
-- it: a frame that asks for a read of the disk's handle under the operation id of the call, it
-- answers with fragments that it cuts from its disk at the offset and with the length that the
-- frame names; frames that are fragments of a write of that many bytes to that handle under that
-- id, it has stored. What it does after a frame that it does not take is left open. The network may
-- cut its answers in any way.
pub run-device_run :
    (lz : Codec) (ops : List Op) (d : NfcDisk) (disk stream final : Bytes)
    → IsLawful lz
    → CanRun d ops (length disk)
    → Serves lz ops d disk stream final
    → Delivers d.sock.incoming stream
    → device_run d.sector_size ops disk ≡ ((run lz ops d).0, final)
run-device_run lz ops d disk stream final law =
    run_lem lz ops d d.sector_size disk stream final law refl
