-- ===== src/Exec.antt =====
-- Methods that change an object and may raise. What was changed before a raise stays changed, so the
-- state comes back beside the exception too.
pub mod Leaves
pub mod Runs
use open_vix_disk_lib.Prelude.{◌≡◌, refl, Bool, true, false, if◌then◌else◌}
use open_vix_disk_lib.Error.{Error, Result, ok, err}

abbrev pub Exec {ℓ} : Type ℓ → Type ℓ → Type ℓ
Exec S A = S → Result A × S

module _ {ℓ} {S A : Type ℓ} where
  abbrev pub pure : A → Exec S A
  pure a s = (ok a, s)

  abbrev pub raise : Error → Exec S A
  raise e s = (err e, s)

  -- A pure computation that may raise.
  abbrev pub lift : Result A → Exec S A
  lift r s = (r, s)

  abbrev pub gets : (S → A) → Exec S A
  gets f s = (ok (f s), s)

module _ {ℓ} {S A B : Type ℓ} where
  abbrev pub proceed : Result A × S → (A → Exec S B) → Result B × S
  proceed (ok a, s) f = f a s
  proceed (err e, s) f = (err e, s)

  infixl 5 ◌>>=◌ ◌>>◌
  abbrev pub ◌>>=◌ : Exec S A → (A → Exec S B) → Exec S B
  ◌>>=◌ m f s = proceed (m s) f

  abbrev pub ◌>>◌ : Exec S A → Exec S B → Exec S B
  ◌>>◌ m n s = proceed (m s) (λ _. n)

module _ {ℓ} {S : Type ℓ} where
  abbrev pub done : Exec S (Unit {ℓ})
  done s = (ok tt, s)

  abbrev pub modify : (S → S) → Exec S (Unit {ℓ})
  modify f s = (ok tt, f s)

  -- `if b: raise e`
  abbrev pub raise_if : Bool → Error → Exec S (Unit {ℓ})
  raise_if true e s = (err e, s)
  raise_if false e s = (ok tt, s)

-- `try: m  except Exception: cleanup; raise`, with a cleanup that does not raise.
module _ {ℓ} {S A : Type ℓ} where
  abbrev pub clean_up : (S → S) → Result A × S → Result A × S
  clean_up cleanup (ok a, s) = (ok a, s)
  clean_up cleanup (err e, s) = (err e, cleanup s)

  abbrev pub on_error : (S → S) → Exec S A → Exec S A
  on_error cleanup m s = clean_up cleanup (m s)

  -- `try: m  finally: cleanup`
  abbrev pub finally : (S → S) → Exec S A → Exec S A
  finally cleanup m s = let (r, s') = m s in (r, cleanup s')

-- An action on a part of the state.
module _ {ℓ} {S T A : Type ℓ} where
  abbrev pub zoom : (S → T) → (T → S → S) → Exec T A → Exec S A
  zoom get put m s = let (r, t) = m (get s) in (r, put t s)
