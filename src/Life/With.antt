-- ===== src/Life/With.antt =====
-- The `with` statement on a disk (openvixdisklib/nfc_open.py) whose body makes any calls.
use open_vix_disk_lib.Prelude.{◌≡◌, refl, subst, true, false}
use open_vix_disk_lib.Error.{Result, ok, err}
use open_vix_disk_lib.Exec.{Exec, proceed}
use open_vix_disk_lib.Fastlz.{Codec}
use open_vix_disk_lib.Aio.{NfcDisk}
use open_vix_disk_lib.Open.{close_disk, with_disk}
use open_vix_disk_lib.Open.Cleanup.{close_disk_marks}
use open_vix_disk_lib.Life.{IsValid, Calls, and_then_one, closes, Ages, Calls-Ages}

-- A disk at its end, after it aged.
pub record Ended (d e : NfcDisk) : Type 0 where
  pub ages : Ages d e
  pub marked : e.closed ≡ true
  pub shut : e.sock.is_open ≡ false

close_disk-Ended :
    (lz : Codec) (d e : NfcDisk) → IsValid d → Calls lz d e → Ended d (close_disk e).1
close_disk-Ended lz d e v calls =
    let ages = Calls-Ages lz v (and_then_one calls (closes e)) in
    let marked = (close_disk_marks e).0 in
    record { ages = ages; marked = marked; shut = ages.valid.shut marked }

proceed_state :
    {A : Type 0} (r : Result A) (x : Result (Unit {0})) (d : NfcDisk)
    → d ≡ (proceed (x, d) (λ _ d'. (r, d'))).1
proceed_state r (ok u) d = refl
proceed_state r (err e) d = refl

-- If the body of a `with` statement on a disk makes any sequence of calls of `readinto`, `read`,
-- `write` and `close`, from a disk whose buffer has room for a byte and whose socket is closed if
-- the disk is marked as closed, then after the statement the disk is marked as closed and its
-- socket is closed, whether the body or the closing returned or raised; the operation id has not
-- fallen, and what was sent stays sent.
pub with_disk-Ended :
    {A : Type 0} (lz : Codec) (body : Exec NfcDisk A) (d : NfcDisk)
    → IsValid d
    → Calls lz d (body d).1
    → Ended d (with_disk body d).1
unfolding with_disk
with_disk-Ended lz body d v calls =
    let c = close_disk (body d).1 in
    subst (λ e. Ended d e) (proceed_state (body d).0 c.0 c.1)
      (close_disk-Ended lz d (body d).1 v calls)
