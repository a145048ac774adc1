-- ===== src/World/Actions.antt =====
-- What the primitive actions open and close.
use open_vix_disk_lib.Prelude.{
  ℕ, ◌≡◌, ◌≢◌, sym, ap, ◌∙◌, ◌⊎◌, inl, inr, true, arith, ◌==◌, Bool-cases, ==_iff,
}
use open_vix_disk_lib.Error.{Result, ok, err}
use open_vix_disk_lib.Exec.{Exec, modify, pure, ◌>>=◌, ◌>>◌, proceed}
use open_vix_disk_lib.Exec.Leaves.{Leaves}
use open_vix_disk_lib.Conn.{Conn}
use open_vix_disk_lib.World.{
  World, on_conn, new_conn, add_conn, close_conn, disconnect_session, new_session, add_session,
}
use open_vix_disk_lib.World.Flags.{
  Resource, socket, disk, session, is_held, OpensNothing, Releases, Safe, Drops, Gains, Acquires,
  PassesOn, Hands,
}

close_conn-other :
    (fd k : ℕ) (w : World)
    → is_held (close_conn fd w) (socket k) ≡ true
    → (is_held w (socket k) ≡ true) × (k ≢ fd)
unfolding close_conn
close_conn-other fd k w h = ground arith

pub close_conn-Releases : (fd : ℕ) (w : World) → Releases (socket fd) w (close_conn fd w)
close_conn-Releases fd w (socket k) h =
    let (held, other) = close_conn-other fd k w h in (held, λ e. other (cc))
close_conn-Releases fd w (disk k) h = (unfold close_conn in h, λ e. cc)
close_conn-Releases fd w (session k) h = (unfold close_conn in h, λ e. cc)

disconnect-other :
    (si k : ℕ) (w : World)
    → is_held (disconnect_session si w) (session k) ≡ true
    → (is_held w (session k) ≡ true) × (k ≢ si)
unfolding disconnect_session
disconnect-other si k w h = ground arith

pub disconnect-Releases : (si : ℕ) (w : World) → Releases (session si) w (disconnect_session si w)
disconnect-Releases si w (session k) h =
    let (held, other) = disconnect-other si k w h in (held, λ e. other (cc))
disconnect-Releases si w (disk k) h = (unfold disconnect_session in h, λ e. cc)
disconnect-Releases si w (socket k) h = (unfold disconnect_session in h, λ e. cc)

pub Safe-close_conn : (fd : ℕ) → Safe (modify (close_conn fd))
Safe-close_conn fd = record { at = λ w r h. (close_conn-Releases fd w r h).0 }

-- Closing first, and then nothing that opens.
pub Drops-close_conn :
    {A : Type 0} (fd : ℕ) (n : Exec World A)
    → Safe n
    → Drops (socket fd) (modify (close_conn fd) >> n)
Drops-close_conn fd n kn = record {
  at = λ w r h. close_conn-Releases fd w r (kn.at (close_conn fd w) r h);
}

added_conn :
    (c : Conn) (w : World) (r : Resource)
    → is_held (add_conn (ok c) w).1 r ≡ true
    → (is_held w r ≡ true) ⊎ (r ≡ socket w.next_conn)
unfolding add_conn
added_conn c w (socket k) h = elim (Bool-cases (k == w.next_conn)) [
  | inl new ↦ inr (ap socket ((==_iff k w.next_conn).0 new))
  | inr old ↦ inl (rw (old, is_held) at h)
]
added_conn c w (disk k) h = inl h
added_conn c w (session k) h = inl h

add_conn-Gains : (x : Result Conn) (w : World) → Gains socket w (add_conn x w)
unfolding add_conn
add_conn-Gains (ok c) w = added_conn c w
add_conn-Gains (err e) w = λ r h. h

pub new_conn-Acquires : (make : World → Result Conn) → Acquires socket (new_conn make)
unfolding new_conn
new_conn-Acquires make = record { at = λ w. add_conn-Gains (make w) w }

added_session :
    (w : World) (r : Resource)
    → is_held (add_session (ok tt) w).1 r ≡ true
    → (is_held w r ≡ true) ⊎ (r ≡ session w.next_session)
unfolding add_session
added_session w (session k) h = elim (Bool-cases (k == w.next_session)) [
  | inl new ↦ inr (ap session ((==_iff k w.next_session).0 new))
  | inr old ↦ inl (rw (old, is_held) at h)
]
added_session w (disk k) h = inl h
added_session w (socket k) h = inl h

add_session-Gains : (x : Result (Unit {0})) (w : World) → Gains session w (add_session x w)
unfolding add_session
add_session-Gains (ok u) w = added_session w
add_session-Gains (err e) w = λ r h. h

pub new_session-Acquires :
    (login : World → Result (Unit {0})) → Acquires session (new_session login)
unfolding new_session
new_session-Acquires login = record { at = λ w. add_session-Gains (login w) w }

-- An exchange over a socket that does not open or close it.
pub on_conn-Safe :
    {A : Type 0} (fd : ℕ) (m : Exec Conn A) → Leaves (λ c. c.is_open) m → Safe (on_conn fd m)
on_conn-Safe fd m km = record { at = keeps }
  where
    keeps : (w : World) → OpensNothing w (on_conn fd m w).1
    keeps w (socket k) h =
        unfold on_conn in
        (elim (Bool-cases (k == fd)) [
          | inl same ↦
              let e : k ≡ fd = (==_iff k fd).0 same in
              rw e (sym (km.at (w.conns fd)) ∙ (rw (same, is_held) at h))
          | inr other ↦ rw (other, is_held) at h
        ])
    keeps w (disk k) h = unfold on_conn in h
    keeps w (session k) h = unfold on_conn in h

-- `new = m; cleanup(); return new`, where `cleanup` closes what was held before.
swap_passes :
    {A : Type 0} (o : Resource) (own : A → Resource) (cleanup : World → World)
    → ((w : World) → Releases o w (cleanup w))
    → (w : World) (x : Result A) (w' : World) → Gains own w (x, w')
    → PassesOn o own w (proceed (x, w') (λ a. modify cleanup >> pure a))
swap_passes o own cleanup kc w (ok a) w' k = λ r h.
    let (held, other) = kc w' r h in
    elim (k r held) [ inl old ↦ inl (old, λ e. absurd (other e)) | inr new ↦ inr new ]
swap_passes o own cleanup kc w (err e) w' k = k

pub Hands-swap :
    {A : Type 0} (o : Resource) (own : A → Resource) (cleanup : World → World) (m : Exec World A)
    → ((w : World) → Releases o w (cleanup w))
    → Acquires own m
    → Hands o own (m >>= λ a. modify cleanup >> pure a)
Hands-swap o own cleanup m kc km = record {
  at = λ w. swap_passes o own cleanup kc w (m w).0 (m w).1 (km.at w);
}
