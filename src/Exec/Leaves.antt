-- ===== src/Exec/Leaves.antt =====
-- What an action leaves alone, whether it returns or raises: one rule for each way to build an action.
use open_vix_disk_lib.Prelude.{◌≡◌, refl, ◌∙◌, Bool, true, false, if◌then◌else◌}
use open_vix_disk_lib.Error.{Error, Result, ok, err}
use open_vix_disk_lib.Exec.{Exec, pure, lift, gets, proceed, ◌>>=◌, ◌>>◌, raise_if}

pub record Leaves {S A B : Type 0} (get : S → B) (m : Exec S A) : Type 0 where
  pub at : (s : S) → get (m s).1 ≡ get s

module _ {S A B : Type 0} {get : S → B} where
  pub Leaves-pure : (a : A) → Leaves get (pure a)
  Leaves-pure a = record { at = λ s. refl }

  pub Leaves-lift : (r : Result A) → Leaves get (lift r)
  Leaves-lift r = record { at = λ s. refl }

  pub Leaves-gets : (f : S → A) → Leaves get (gets f)
  Leaves-gets f = record { at = λ s. refl }

module _ {S B : Type 0} {get : S → B} where
  pub Leaves-raise_if : (b : Bool) (e : Error) → Leaves get (raise_if b e)
  Leaves-raise_if true e = record { at = λ s. refl }
  Leaves-raise_if false e = record { at = λ s. refl }

module _ {S A B : Type 0} {get : S → B} where
  pub Leaves-if :
      (b : Bool) (m n : Exec S A) → Leaves get m → Leaves get n → Leaves get (if b then m else n)
  Leaves-if true m n km kn = km
  Leaves-if false m n km kn = kn

module _ {S A B C : Type 0} {get : S → C} where
  proceed-Leaves :
      (f : A → Exec S B)
      → ((a : A) → Leaves get (f a))
      → (r : Result A) (s : S) → get (proceed (r, s) f).1 ≡ get s
  proceed-Leaves f kf (ok a) s = (kf a).at s
  proceed-Leaves f kf (err e) s = refl

  pub Leaves-bind :
      (m : Exec S A) (f : A → Exec S B)
      → Leaves get m
      → ((a : A) → Leaves get (f a))
      → Leaves get (m >>= f)
  Leaves-bind m f km kf = record { at = λ s. proceed-Leaves f kf (m s).0 (m s).1 ∙ km.at s }

  pub Leaves-then :
      (m : Exec S A) (n : Exec S B) → Leaves get m → Leaves get n → Leaves get (m >> n)
  Leaves-then m n km kn = record {
    at = λ s. proceed-Leaves (λ _. n) (λ _. kn) (m s).0 (m s).1 ∙ km.at s;
  }

pub ruleset leaves_rules =
    (Leaves-pure, Leaves-lift, Leaves-gets, Leaves-raise_if, Leaves-if, Leaves-bind, Leaves-then)
