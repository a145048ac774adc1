-- ===== src/World/Flags.antt =====
-- What is open: sockets, the sockets of disks, and VIM sessions. Rules for actions that open nothing,
-- and for actions that hand one open thing to the caller, or nothing when they raise.
use open_vix_disk_lib.Prelude.{ℕ, ◌≡◌, ◌≢◌, ◌∙◌, ◌⊎◌, inl, inr, Bool, true, false, if◌then◌else◌}
use open_vix_disk_lib.Error.{Error, Result, ok, err}
use open_vix_disk_lib.Exec.{
  Exec, pure, lift, gets, proceed, ◌>>=◌, ◌>>◌, raise_if, on_error, clean_up,
}
use open_vix_disk_lib.World.{World}

pub data Resource : Type 0 where
  socket disk session : ℕ → Resource

abbrev pub is_held : World → Resource → Bool
is_held w (socket k) = (w.conns k).is_open
is_held w (disk k) = (w.disks k).sock.is_open
is_held w (session k) = w.sessions k

-- Everything that is open in `w'` was open in `w`.
abbrev pub OpensNothing : World → World → Type 0
OpensNothing w w' = (r : Resource) → is_held w' r ≡ true → is_held w r ≡ true

-- ... and `o` is not open.
abbrev pub Releases : Resource → World → World → Type 0
Releases o w w' = (r : Resource) → is_held w' r ≡ true → (is_held w r ≡ true) × (r ≢ o)

pub record Safe {A : Type 0} (m : Exec World A) : Type 0 where
  pub at : (w : World) → OpensNothing w (m w).1

pub record Drops {A : Type 0} (o : Resource) (m : Exec World A) : Type 0 where
  pub at : (w : World) → Releases o w (m w).1

-- What an action may open: nothing if it raises, and what `own` names if it returns.
abbrev pub Gains : {A : Type 0} → (A → Resource) → World → Result A × World → Type 0
Gains own w (ok a, w') = (r : Resource) → is_held w' r ≡ true → (is_held w r ≡ true) ⊎ (r ≡ own a)
Gains own w (err e, w') = OpensNothing w w'

pub record Acquires {A : Type 0} (own : A → Resource) (m : Exec World A) : Type 0 where
  pub at : (w : World) → Gains own w (m w)

-- The same of an action that holds `o` at its start, and passes it on as what `own` names.
abbrev pub PassesOn : {A : Type 0} → Resource → (A → Resource) → World → Result A × World → Type 0
PassesOn o own w (ok a, w') =
    (r : Resource)
    → is_held w' r ≡ true
    → ((is_held w r ≡ true) × (r ≡ o → r ≡ own a)) ⊎ (r ≡ own a)
PassesOn o own w (err e, w') = OpensNothing w w'

pub record Hands {A : Type 0} (o : Resource) (own : A → Resource) (g : Exec World A) : Type 0 where
  pub at : (w : World) → PassesOn o own w (g w)

module _ {A : Type 0} where
  pub Safe-pure : (a : A) → Safe (pure a)
  Safe-pure a = record { at = λ w r h. h }

  pub Safe-lift : (x : Result A) → Safe (lift x)
  Safe-lift x = record { at = λ w r h. h }

  pub Safe-gets : (f : World → A) → Safe (gets f)
  Safe-gets f = record { at = λ w r h. h }

module _ {A : Type 0} where
  pub Safe-asked : (f : World → Result A) → Safe (λ w. (f w, w))
  Safe-asked f = record { at = λ w r h. h }

  pub Safe-if : (b : Bool) (m n : Exec World A) → Safe m → Safe n → Safe (if b then m else n)
  Safe-if true m n km kn = km
  Safe-if false m n km kn = kn

pub Safe-raise_if : (b : Bool) (e : Error) → Safe (raise_if b e)
Safe-raise_if true e = record { at = λ w r h. h }
Safe-raise_if false e = record { at = λ w r h. h }

module _ {A B : Type 0} where
  proceed-Safe :
      (f : A → Exec World B) (kf : (a : A) → Safe (f a)) (x : Result A) (w : World)
      → OpensNothing w (proceed (x, w) f).1
  proceed-Safe f kf (ok a) w r h = (kf a).at w r h
  proceed-Safe f kf (err e) w r h = h

  pub Safe-bind :
      (m : Exec World A) (f : A → Exec World B) → Safe m → ((a : A) → Safe (f a)) → Safe (m >>= f)
  Safe-bind m f km kf = record { at = λ w r h. km.at w r (proceed-Safe f kf (m w).0 (m w).1 r h) }

  pub Safe-then : (m : Exec World A) (n : Exec World B) → Safe m → Safe n → Safe (m >> n)
  Safe-then m n km kn = record {
    at = λ w r h. km.at w r (proceed-Safe (λ _. n) (λ _. kn) (m w).0 (m w).1 r h);
  }

  -- First something that opens nothing.
  then-Gains :
      (own : B → Resource) (f : A → Exec World B) (kf : (a : A) → Acquires own (f a)) (w : World)
      (x : Result A) (w' : World)
      → OpensNothing w w'
      → Gains own w (proceed (x, w') f)
  then-Gains own f kf w (ok a) w' k = weaken (f a w').0 (f a w').1 ((kf a).at w')
    where
      weaken : (y : Result B) (v : World) → Gains own w' (y, v) → Gains own w (y, v)
      weaken (ok b) v g = λ r h. elim (g r h) [ inl p ↦ inl (k r p) | inr q ↦ inr q ]
      weaken (err e) v g = λ r h. k r (g r h)
  then-Gains own f kf w (err e) w' k = k

  pub Acquires-after :
      (own : B → Resource) (m : Exec World A) (f : A → Exec World B)
      → Safe m
      → ((a : A) → Acquires own (f a))
      → Acquires own (m >>= f)
  Acquires-after own m f km kf = record {
    at = λ w. then-Gains own f kf w (m w).0 (m w).1 (km.at w);
  }

  -- `a = m; try: g(a) except Exception: cleanup(a); raise`
  guard-Gains :
      (own : A → Resource) (own' : B → Resource) (cleanup : A → World → World)
      (g : A → Exec World B) (kc : (a : A) (w : World) → Releases (own a) w (cleanup a w))
      (kg : (a : A) → Hands (own a) own' (g a)) (w : World) (x : Result A) (w' : World)
      → Gains own w (x, w')
      → Gains own' w (proceed (x, w') (λ a. on_error (cleanup a) (g a)))
  guard-Gains own own' cleanup g kc kg w (ok a) w' k = cases (g a w').0 (g a w').1 ((kg a).at w')
    where
      cases :
          (y : Result B) (v : World)
          → PassesOn (own a) own' w' (y, v)
          → Gains own' w (clean_up (cleanup a) (y, v))
      cases (ok b) v p = λ r h. elim (p r h) [
        | inl (held, same) ↦ elim (k r held) [ inl old ↦ inl old | inr mine ↦ inr (same mine) ]
        | inr mine ↦ inr mine
      ]
      cases (err e) v p = λ r h.
          let (held, other) = kc a v r h in
          elim (k r (p r held)) [ inl old ↦ old | inr mine ↦ absurd (other mine) ]
  guard-Gains own own' cleanup g kc kg w (err e) w' k = k

  pub Acquires-guarded :
      (own : A → Resource) (own' : B → Resource) (cleanup : A → World → World) (m : Exec World A)
      (g : A → Exec World B)
      → Acquires own m
      → ((a : A) (w : World) → Releases (own a) w (cleanup a w))
      → ((a : A) → Hands (own a) own' (g a))
      → Acquires own' (m >>= λ a. on_error (cleanup a) (g a))
  Acquires-guarded own own' cleanup m g km kc kg = record {
    at = λ w. guard-Gains own own' cleanup g kc kg w (m w).0 (m w).1 (km.at w);
  }

  -- What is acquired is released again.
  drop-Gains :
      (own : A → Resource) (n : A → Exec World B) (kn : (a : A) → Drops (own a) (n a)) (w : World)
      (x : Result A) (w' : World)
      → Gains own w (x, w')
      → OpensNothing w (proceed (x, w') n).1
  drop-Gains own n kn w (ok a) w' k = λ r h.
      let (held, other) = (kn a).at w' r h in
      elim (k r held) [ inl old ↦ old | inr mine ↦ absurd (other mine) ]
  drop-Gains own n kn w (err e) w' k = k

  pub Safe-dropped :
      (own : A → Resource) (m : Exec World A) (n : A → Exec World B)
      → Acquires own m
      → ((a : A) → Drops (own a) (n a))
      → Safe (m >>= n)
  Safe-dropped own m n km kn = record { at = λ w. drop-Gains own n kn w (m w).0 (m w).1 (km.at w) }

  -- Something that opens nothing, before a hand-over and behind it.
  then_passes :
      (o : Resource) (own : B → Resource) (f : A → Exec World B) (kf : (a : A) → Hands o own (f a))
      (w : World) (x : Result A) (w' : World)
      → OpensNothing w w'
      → PassesOn o own w (proceed (x, w') f)
  then_passes o own f kf w (ok a) w' k = weaken (f a w').0 (f a w').1 ((kf a).at w')
    where
      weaken : (y : Result B) (v : World) → PassesOn o own w' (y, v) → PassesOn o own w (y, v)
      weaken (ok b) v g = λ r h. elim (g r h) [ inl (p, s) ↦ inl (k r p, s) | inr q ↦ inr q ]
      weaken (err e) v g = λ r h. k r (g r h)
  then_passes o own f kf w (err e) w' k = k

  pub Hands-after :
      (o : Resource) (own : B → Resource) (m : Exec World A) (f : A → Exec World B)
      → Safe m
      → ((a : A) → Hands o own (f a))
      → Hands o own (m >>= f)
  Hands-after o own m f km kf = record {
    at = λ w. then_passes o own f kf w (m w).0 (m w).1 (km.at w);
  }

-- An action that keeps `o`, and names it in its result.
module _ {A : Type 0} where
  pub Hands-pure : (o : Resource) (own : A → Resource) (a : A) → o ≡ own a → Hands o own (pure a)
  Hands-pure o own a e = record { at = λ w r h. inl (h, λ mine. mine ∙ e) }

pub ruleset safe_rules =
    (Safe-pure, Safe-lift, Safe-gets, Safe-asked, Safe-if, Safe-raise_if, Safe-bind, Safe-then)
