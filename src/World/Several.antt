-- ===== src/World/Several.antt =====
-- Actions whose result holds several open things at once: rules like those for one.
use open_vix_disk_lib.Prelude.{◌≡◌, sym, subst, ◌⊎◌, inl, inr, true}
use open_vix_disk_lib.Error.{Result, ok, err}
use open_vix_disk_lib.Exec.{Exec, pure, proceed, ◌>>=◌, on_error, clean_up}
use open_vix_disk_lib.World.{World}
use open_vix_disk_lib.World.Flags.{Resource, is_held, OpensNothing, Releases, Safe, Gains, Acquires}

-- What an action may open: nothing if it raises, and what `own` says of its result if it returns.
abbrev pub GainsAll : {A : Type 0} → (A → Resource → Type 0) → World → Result A × World → Type 0
GainsAll own w (ok a, w') = (r : Resource) → is_held w' r ≡ true → (is_held w r ≡ true) ⊎ own a r
GainsAll own w (err e, w') = OpensNothing w w'

pub record AcquiresAll {A : Type 0} (own : A → Resource → Type 0) (m : Exec World A) : Type 0 where
  pub at : (w : World) → GainsAll own w (m w)

-- The same of an action that holds `o` at its start.
abbrev pub PassesAll :
    {A : Type 0} → Resource → (A → Resource → Type 0) → World → Result A × World → Type 0
PassesAll o own w (ok a, w') =
    (r : Resource) → is_held w' r ≡ true → ((is_held w r ≡ true) × (r ≡ o → own a r)) ⊎ own a r
PassesAll o own w (err e, w') = OpensNothing w w'

pub record HandsAll {A : Type 0} (o : Resource) (own : A → Resource → Type 0) (g : Exec World A)
    : Type 0 where
  pub at : (w : World) → PassesAll o own w (g w)

module _ {A B : Type 0} where
  after-GainsAll :
      (own : B → Resource → Type 0) (f : A → Exec World B) (kf : (a : A) → AcquiresAll own (f a))
      (w : World) (x : Result A) (w' : World)
      → OpensNothing w w'
      → GainsAll own w (proceed (x, w') f)
  after-GainsAll own f kf w (ok a) w' k = weaken (f a w').0 (f a w').1 ((kf a).at w')
    where
      weaken : (y : Result B) (v : World) → GainsAll own w' (y, v) → GainsAll own w (y, v)
      weaken (ok b) v g = λ r h. elim (g r h) [ inl p ↦ inl (k r p) | inr q ↦ inr q ]
      weaken (err e) v g = λ r h. k r (g r h)
  after-GainsAll own f kf w (err e) w' k = k

  pub AcquiresAll-after :
      (own : B → Resource → Type 0) (m : Exec World A) (f : A → Exec World B)
      → Safe m
      → ((a : A) → AcquiresAll own (f a))
      → AcquiresAll own (m >>= f)
  AcquiresAll-after own m f km kf = record {
    at = λ w. after-GainsAll own f kf w (m w).0 (m w).1 (km.at w);
  }

  after-PassesAll :
      (o : Resource) (own : B → Resource → Type 0) (f : A → Exec World B)
      (kf : (a : A) → HandsAll o own (f a)) (w : World) (x : Result A) (w' : World)
      → OpensNothing w w'
      → PassesAll o own w (proceed (x, w') f)
  after-PassesAll o own f kf w (ok a) w' k = weaken (f a w').0 (f a w').1 ((kf a).at w')
    where
      weaken : (y : Result B) (v : World) → PassesAll o own w' (y, v) → PassesAll o own w (y, v)
      weaken (ok b) v g = λ r h. elim (g r h) [ inl (p, s) ↦ inl (k r p, s) | inr q ↦ inr q ]
      weaken (err e) v g = λ r h. k r (g r h)
  after-PassesAll o own f kf w (err e) w' k = k

  pub HandsAll-after :
      (o : Resource) (own : B → Resource → Type 0) (m : Exec World A) (f : A → Exec World B)
      → Safe m
      → ((a : A) → HandsAll o own (f a))
      → HandsAll o own (m >>= f)
  HandsAll-after o own m f km kf = record {
    at = λ w. after-PassesAll o own f kf w (m w).0 (m w).1 (km.at w);
  }

  -- `a = m; return mk(a)`, where the result holds what `a` is, and `o`.
  make-PassesAll :
      (o : Resource) (own : A → Resource) (own' : B → Resource → Type 0) (mk : A → B)
      → ((a : A) → own' (mk a) o)
      → ((a : A) → own' (mk a) (own a))
      → (w : World) (x : Result A) (w' : World) → Gains own w (x, w')
      → PassesAll o own' w (proceed (x, w') (λ a. pure (mk a)))
  make-PassesAll o own own' mk keeps holds w (ok a) w' k = λ r h. elim (k r h) [
    | inl old ↦ inl (old, λ e. subst (own' (mk a)) (sym e) (keeps a))
    | inr new ↦ inr (subst (own' (mk a)) (sym new) (holds a))
  ]
  make-PassesAll o own own' mk keeps holds w (err e) w' k = k

  pub HandsAll-make :
      (o : Resource) (own : A → Resource) (own' : B → Resource → Type 0) (m : Exec World A)
      (mk : A → B)
      → Acquires own m
      → ((a : A) → own' (mk a) o)
      → ((a : A) → own' (mk a) (own a))
      → HandsAll o own' (m >>= λ a. pure (mk a))
  HandsAll-make o own own' m mk km keeps holds = record {
    at = λ w. make-PassesAll o own own' mk keeps holds w (m w).0 (m w).1 (km.at w);
  }

  -- `a = m; try: g(a) except Exception: cleanup(a); raise`
  guard-GainsAll :
      (own : A → Resource) (own' : B → Resource → Type 0) (cleanup : A → World → World)
      (g : A → Exec World B) (kc : (a : A) (w : World) → Releases (own a) w (cleanup a w))
      (kg : (a : A) → HandsAll (own a) own' (g a)) (w : World) (x : Result A) (w' : World)
      → Gains own w (x, w')
      → GainsAll own' w (proceed (x, w') (λ a. on_error (cleanup a) (g a)))
  guard-GainsAll own own' cleanup g kc kg w (ok a) w' k = cases (g a w').0 (g a w').1 ((kg a).at w')
    where
      cases :
          (y : Result B) (v : World)
          → PassesAll (own a) own' w' (y, v)
          → GainsAll own' w (clean_up (cleanup a) (y, v))
      cases (ok b) v p = λ r h. elim (p r h) [
        | inl (held, same) ↦ elim (k r held) [ inl old ↦ inl old | inr mine ↦ inr (same mine) ]
        | inr mine ↦ inr mine
      ]
      cases (err e) v p = λ r h.
          let (held, other) = kc a v r h in
          elim (k r (p r held)) [ inl old ↦ old | inr mine ↦ absurd (other mine) ]
  guard-GainsAll own own' cleanup g kc kg w (err e) w' k = k

  pub AcquiresAll-guarded :
      (own : A → Resource) (own' : B → Resource → Type 0) (cleanup : A → World → World)
      (m : Exec World A) (g : A → Exec World B)
      → Acquires own m
      → ((a : A) (w : World) → Releases (own a) w (cleanup a w))
      → ((a : A) → HandsAll (own a) own' (g a))
      → AcquiresAll own' (m >>= λ a. on_error (cleanup a) (g a))
  AcquiresAll-guarded own own' cleanup m g km kc kg = record {
    at = λ w. guard-GainsAll own own' cleanup g kc kg w (m w).0 (m w).1 (km.at w);
  }

-- An action that opens nothing, and closes what `own` says.
pub record DropsAll {A : Type 0} (own : Resource → Type 0) (m : Exec World A) : Type 0 where
  pub at : (w : World) (r : Resource) → is_held (m w).1 r ≡ true → (is_held w r ≡ true) × ¬ own r

module _ {A B : Type 0} where
  drop-GainsAll :
      (own : A → Resource → Type 0) (n : A → Exec World B) (kn : (a : A) → DropsAll (own a) (n a))
      (w : World) (x : Result A) (w' : World)
      → GainsAll own w (x, w')
      → OpensNothing w (proceed (x, w') n).1
  drop-GainsAll own n kn w (ok a) w' k = λ r h.
      let (held, other) = (kn a).at w' r h in
      elim (k r held) [ inl old ↦ old | inr mine ↦ absurd (other mine) ]
  drop-GainsAll own n kn w (err e) w' k = k

  pub Safe-dropped_all :
      (own : A → Resource → Type 0) (m : Exec World A) (n : A → Exec World B)
      → AcquiresAll own m
      → ((a : A) → DropsAll (own a) (n a))
      → Safe (m >>= n)
  Safe-dropped_all own m n km kn = record {
    at = λ w. drop-GainsAll own n kn w (m w).0 (m w).1 (km.at w);
  }
