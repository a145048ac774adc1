-- ===== src/Exec/Runs.antt =====
-- Actions that end: they relate the state before and after, do not run out of fuel, and return what
-- satisfies a postcondition. One rule for each way to build an action.
use open_vix_disk_lib.Prelude.{◌≡◌, ◌≢◌, refl, Bool, true, false, if◌then◌else◌}
use open_vix_disk_lib.Error.{Error, Result, ok, err, out_of_fuel, and_then}
use open_vix_disk_lib.Exec.{Exec, pure, raise, lift, gets, proceed, ◌>>=◌, ◌>>◌, raise_if}

pub record Preorder {S : Type 0} (R : S → S → Type 0) : Type 0 where
  pub self : (s : S) → R s s
  pub compose : (s t u : S) → R s t → R t u → R s u

abbrev pub Outcome : {S A : Type 0} → (S → S → Type 0) → (A → Type 0) → S → Result A → S → Type 0
Outcome R P s (ok a) t = R s t × P a
Outcome R P s (err e) t = R s t × (e ≢ out_of_fuel)

pub record Runs {S A : Type 0} (R : S → S → Type 0) (P : A → Type 0) (m : Exec S A) : Type 0 where
  pub at : (s : S) → Outcome R P s (m s).0 (m s).1

-- A result that is not the end of the fuel, and satisfies `P` if it is a value.
abbrev pub Yields : {A : Type 0} → (A → Type 0) → Result A → Type 0
Yields P (ok a) = P a
Yields P (err e) = e ≢ out_of_fuel

abbrev pub Any : {A : Type 0} → A → Type 0
Any a = Unit {0}

module _ {S : Type 0} {R : S → S → Type 0} (pre : Preorder R) where
  module _ {A : Type 0} (P : A → Type 0) where
    lift-Outcome : (x : Result A) (s : S) → Yields P x → Outcome R P s x s
    lift-Outcome (ok a) s y = (pre.self s, y)
    lift-Outcome (err e) s y = (pre.self s, y)

    pub further-Outcome :
        (s t : S) (y : Result A) (u : S) → R s t → Outcome R P t y u → Outcome R P s y u
    further-Outcome s t (ok b) u r (r', q) = (pre.compose s t u r r', q)
    further-Outcome s t (err e) u r (r', ne) = (pre.compose s t u r r', ne)

  module _ {A : Type 0} {P : A → Type 0} where
    pub Runs-pure : (a : A) → P a → Runs R P (pure a)
    Runs-pure a p = record { at = λ s. (pre.self s, p) }

    pub Runs-lift : (x : Result A) → Yields P x → Runs R P (lift x)
    Runs-lift x y = record { at = λ s. lift-Outcome P x s y }

    pub Runs-raise : (e : Error) → e ≢ out_of_fuel → Runs R P (raise e)
    Runs-raise e ne = record { at = λ s. (pre.self s, ne) }

  pub Runs-gets : (f : S → S) → Runs R Any (gets f)
  Runs-gets f = record { at = λ s. (pre.self s, tt) }

  -- What follows may use that the test failed.
  pub Runs-raise_if :
      (b : Bool) (e : Error) → e ≢ out_of_fuel → Runs R (λ u. b ≡ false) (raise_if b e)
  Runs-raise_if true e ne = record { at = λ s. (pre.self s, ne) }
  Runs-raise_if false e ne = record { at = λ s. (pre.self s, refl) }

  module _ {A B : Type 0} {P : A → Type 0} {Q : B → Type 0} where
    pub bind-Outcome :
        (f : A → Exec S B) (kf : (a : A) → P a → Runs R Q (f a)) (s : S) (x : Result A) (t : S)
        → Outcome R P s x t
        → Outcome R Q s (proceed (x, t) f).0 (proceed (x, t) f).1
    bind-Outcome f kf s (ok a) t (r, p) =
        further-Outcome Q s t (f a t).0 (f a t).1 r ((kf a p).at t)
    bind-Outcome f kf s (err e) t o = o

    pub Runs-bind :
        (m : Exec S A) (f : A → Exec S B)
        → Runs R P m
        → ((a : A) → P a → Runs R Q (f a))
        → Runs R Q (m >>= f)
    Runs-bind m f km kf = record { at = λ s. bind-Outcome f kf s (m s).0 (m s).1 (km.at s) }

    pub Runs-then : (m : Exec S A) (n : Exec S B) → Runs R P m → Runs R Q n → Runs R Q (m >> n)
    Runs-then m n km kn = record {
      at = λ s. bind-Outcome (λ _. n) (λ _ _. kn) s (m s).0 (m s).1 (km.at s);
    }

module _ {S A : Type 0} {R : S → S → Type 0} {P : A → Type 0} where
  pub Runs-if :
      (b : Bool) (m n : Exec S A)
      → (b ≡ true → Runs R P m)
      → (b ≡ false → Runs R P n)
      → Runs R P (if b then m else n)
  Runs-if true m n km kn = km refl
  Runs-if false m n km kn = kn refl

module _ {A B : Type 0} (P : A → Type 0) (Q : B → Type 0) where
  pub and_then-Yields :
      (x : Result A) (f : A → Result B)
      → Yields P x
      → ((a : A) → P a → Yields Q (f a))
      → Yields Q (and_then x f)
  and_then-Yields (ok a) f y k = k a y
  and_then-Yields (err e) f y k = y

pub if-Yields :
    {A : Type 0} (P : A → Type 0) (b : Bool) (x y : Result A)
    → (b ≡ true → Yields P x)
    → (b ≡ false → Yields P y)
    → Yields P (if b then x else y)
if-Yields P true x y p q = p refl
if-Yields P false x y p q = q refl

module _ {S A : Type 0} (R : S → S → Type 0) where
  weaken-Outcome :
      (P Q : A → Type 0) (s : S) (x : Result A) (t : S)
      → ((a : A) → P a → Q a)
      → Outcome R P s x t
      → Outcome R Q s x t
  weaken-Outcome P Q s (ok a) t k (r, p) = (r, k a p)
  weaken-Outcome P Q s (err e) t k o = o

  pub Runs-weaken :
      (P Q : A → Type 0) (m : Exec S A) → ((a : A) → P a → Q a) → Runs R P m → Runs R Q m
  Runs-weaken P Q m k km = record { at = λ s. weaken-Outcome P Q s (m s).0 (m s).1 k (km.at s) }
