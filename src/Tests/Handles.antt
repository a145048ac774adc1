-- ===== src/Tests/Handles.antt =====
-- A session and a handle, each with a body of its own.
use open_vix_disk_lib.Prelude.{true, none, codes}
use open_vix_disk_lib.Exec.{pure, ◌>>=◌}
use open_vix_disk_lib.World.Flags.{Safe, Safe-pure}
use open_vix_disk_lib.Session.{authenticate, with_session}
use open_vix_disk_lib.Session.Login.{with_session-Safe}
use open_vix_disk_lib.Handle.{Connection, open_handle}
use open_vix_disk_lib.Handle.Holding.{open_handle-Safe}
use open_vix_disk_lib.Tests.Leaks.{env-TakesOptions}
use open_vix_disk_lib.Tests.Leaks.{env}

with_session-Safe_example : Safe (
    authenticate env
      (codes "vc")
      (codes "root")
      (codes "pw")
      (codes "vm-1")
      443
      none
      true
      none
      none
      true
      true
    >>= λ s. with_session s (λ s. pure s.si))
with_session-Safe_example =
    with_session-Safe env (codes "vc") (codes "root") (codes "pw") (codes "vm-1") 443 none true none
      none true true (λ s. pure s.si) (λ s. Safe-pure s.si)

abbrev connection : Connection
connection = record {
  si = 0;
  vm_moref = codes "vm-1";
  snapshot_ref = none;
  thumbprint = none;
  allow_untrusted = true;
  read_only = true;
  transport_mode = codes "nbdssl";
}

open_handle-Safe_example :
    Safe (open_handle env connection (codes "[ds] a.vmdk") 4 65536 1 (λ h. pure h.disk))
open_handle-Safe_example =
    open_handle-Safe env env-TakesOptions connection (codes "[ds] a.vmdk") 4 65536 1
      (λ h. pure h.disk) (λ h. Safe-pure h.disk) (λ h w sound. sound)
