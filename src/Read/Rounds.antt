-- ===== src/Read/Rounds.antt =====
-- The loop of `readinto` (openvixdisklib/nfc_open.py), round by round.
use open_vix_disk_lib.Prelude.{ℕ, zero, suc, ◌≤◌, ◌<◌, ◌≡◌, refl, Bool, lt→ltb, le→ltb_false}
use open_vix_disk_lib.Error.{ok}
use open_vix_disk_lib.Exec.{proceed}
use open_vix_disk_lib.Fastlz.{Codec}
use open_vix_disk_lib.Read.Fragment.{Progress, Reading}
use open_vix_disk_lib.Read.{read_fragment, read_loop}

module _ (lz : Codec) (op_id len : ℕ) (skip : Bool) where
  pub read_loop_full :
      (fuel : ℕ) (p : Progress) (s : Reading)
      → len ≤ p.filled
      → read_loop lz fuel op_id len skip p s ≡ (ok p, s)
  unfolding read_loop
  read_loop_full zero p s h = rw (le→ltb_false p.filled len h)
  read_loop_full (suc fuel) p s h = rw (le→ltb_false p.filled len h)

  pub read_loop_step :
      (fuel : ℕ) (p : Progress) (s : Reading)
      → p.filled < len
      → read_loop lz (suc fuel) op_id len skip p s
        ≡ proceed (read_fragment lz op_id len skip p s) (λ q. read_loop lz fuel op_id len skip q)
  unfolding read_loop
  read_loop_step fuel p s h = rw (lt→ltb p.filled len h) refl

  pub read_loop_round :
      (fuel : ℕ) (p q : Progress) (s t : Reading)
      → p.filled < len
      → read_fragment lz op_id len skip p s ≡ (ok q, t)
      → read_loop lz (suc fuel) op_id len skip p s ≡ read_loop lz fuel op_id len skip q t
  read_loop_round fuel p q s t h e = rw (read_loop_step fuel p s h, e) refl
