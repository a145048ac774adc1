-- ===== src/Open/Marks.antt =====
-- The mark `_closed` of a disk through the steps of `open_disk` (openvixdisklib/nfc_open.py).
use open_vix_disk_lib.Prelude.{ℕ, ◌≡◌, refl, ◌∙◌, Bool}
use open_vix_disk_lib.Error.{Result, ok, err}
use open_vix_disk_lib.Exec.{modify, clean_up}
use open_vix_disk_lib.Exec.Leaves.{Leaves}
use open_vix_disk_lib.Text.{Text}
use open_vix_disk_lib.Aio.{NfcDisk}
use open_vix_disk_lib.Open.{aio_prepare, open_file, OpenArgs, close_sock, open_steps, open_over}
use open_vix_disk_lib.Open.Cleanup.{disk_closed, closed_rules, aio_roundtrip-closed}

aio_prepare-closed : Leaves disk_closed aio_prepare
unfolding aio_prepare
aio_prepare-closed = search (closed_rules, aio_roundtrip-closed) depth 20

set_fields-closed :
    (h s : ℕ)
    → Leaves disk_closed (modify (λ (d : NfcDisk). record d { handle = h; sector_size = s }))
set_fields-closed h s = record { at = λ d. refl }

open_file-closed : (path : Text) (read_only : Bool) → Leaves disk_closed (open_file path read_only)
unfolding open_file
open_file-closed path read_only =
    search (closed_rules, aio_roundtrip-closed, set_fields-closed) depth 20

open_steps-closed : (a : OpenArgs) → Leaves disk_closed (open_steps a)
unfolding open_steps
open_steps-closed a = search (closed_rules, aio_prepare-closed, open_file-closed) depth 20

clean_up-closed :
    (r : Result (Unit {0})) (d : NfcDisk)
    → disk_closed (clean_up close_sock (r, d)).1 ≡ disk_closed d
clean_up-closed (ok u) d = refl
clean_up-closed (err e) d = refl

pub open_over-closed : (a : OpenArgs) → Leaves disk_closed (open_over a)
unfolding open_over
open_over-closed a = record {
  at = λ d. clean_up-closed (open_steps a d).0 (open_steps a d).1 ∙ (open_steps-closed a).at d;
}
