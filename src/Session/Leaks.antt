-- ===== src/Session/Leaks.antt =====
-- The sockets and disks of `open_disk` (openvixdisklib/nfc_open.py).
use open_vix_disk_lib.Prelude.{
  ℕ, ◌≡◌, ◌≢◌, refl, subst, ap, ◌⊎◌, inl, inr, Bool, true, false, ◌==◌, ==_iff, Bool-cases,
  if◌then◌else◌,
}
use open_vix_disk_lib.Error.{Result, ok, err}
use open_vix_disk_lib.Exec.{Exec, pure, proceed, on_error}
use open_vix_disk_lib.Aio.{NfcDisk}
use open_vix_disk_lib.Open.{OpenArgs, check_args, new_disk, open_over}
use open_vix_disk_lib.Open.Cleanup.{disk_open, is_ok, open_over_socket}
use open_vix_disk_lib.World.{World, Env, close_conn, put_disk, on_disk, new_conn}
use open_vix_disk_lib.World.Flags.{
  Resource, socket, disk, session, is_held, Releases, Gains, Acquires, PassesOn, Acquires-guarded,
  Acquires-after, Safe-lift,
}
use open_vix_disk_lib.World.Actions.{close_conn-Releases, new_conn-Acquires}
use open_vix_disk_lib.Authd.Leaks.{wrap_socket-Hands}
use open_vix_disk_lib.Authd.{wrap_socket}
use open_vix_disk_lib.Conn.{Conn}
use open_vix_disk_lib.Session.{
  NfcAuthSession, new_disk_over, takeover_authd_socket, wrap_nfcssl_socket, take_socket, open_disk,
}

-- An action that is given `o`: it releases `o` if it raises, and passes it on if it returns.
abbrev Takes : {A : Type 0} → Resource → (A → Resource) → World → Result A × World → Type 0
Takes o own w (ok a, w') = PassesOn o own w (ok a, w')
Takes o own w (err e, w') = Releases o w w'

take-Gains :
    {A B : Type 0} (own : A → Resource) (own' : B → Resource) (g : A → Exec World B)
    (kg : (a : A) (w : World) → Takes (own a) own' w (g a w)) (w : World) (x : Result A)
    (w' : World)
    → Gains own w (x, w')
    → Gains own' w (proceed (x, w') g)
take-Gains {A} {B} own own' g kg w (ok a) w' k = cases (g a w').0 (g a w').1 (kg a w')
  where
    cases : (y : Result B) (v : World) → Takes (own a) own' w' (y, v) → Gains own' w (y, v)
    cases (ok b) v p = λ r h. elim (p r h) [
      | inl (held, same) ↦ elim (k r held) [ inl old ↦ inl old | inr mine ↦ inr (same mine) ]
      | inr mine ↦ inr mine
    ]
    cases (err e) v p = λ r h.
        let (held, other) = p r h in
        elim (k r held) [ inl old ↦ old | inr mine ↦ absurd (other mine) ]
take-Gains own own' g kg w (err e) w' k = k

-- A disk that is open after a disk was put in place.
pub put_disk-held :
    (i k : ℕ) (d : NfcDisk) (w : World)
    → is_held (put_disk i d w) (disk k) ≡ true
    → ((k ≡ i) × (disk_open d ≡ true)) ⊎ ((k ≢ i) × (is_held w (disk k) ≡ true))
put_disk-held i k d w h = elim (Bool-cases (k == i)) [
  | inl same ↦ inl ((==_iff k i).0 same, rw (same, is_held) at h)
  | inr other ↦ inr (λ e. cc ((==_iff k i).1 e), rw (other, is_held) at h)
]

-- What was open before the disk `i` was made, without the socket that it took over, and the disk.
abbrev Made : ℕ → ℕ → World → World → Type 0
Made sock i w w' =
    (r : Resource) → is_held w' r ≡ true → ((is_held w r ≡ true) × (r ≢ socket sock)) ⊎ (r ≡ disk i)

-- A disk that is open, or that was put in place closed.
passes-Made :
    (sock i : ℕ) (w w' : World) (d : NfcDisk)
    → Made sock i w w'
    → (r : Resource) → is_held (put_disk i d w') r ≡ true
    → (is_held w' r ≡ true) ⊎ (r ≡ disk i)
passes-Made sock i w w' d made (socket k) held = inl held
passes-Made sock i w w' d made (session k) held = inl held
passes-Made sock i w w' d made (disk k) held = elim (put_disk-held i k d w' held) [
  | inl (same, _) ↦ inr (ap disk same)
  | inr (_, before) ↦ inl before
]

closed-Made :
    (sock i : ℕ) (w w' : World) (d : NfcDisk)
    → Made sock i w w'
    → disk_open d ≡ false
    → Releases (socket sock) w (put_disk i d w')
closed-Made sock i w w' d made h (socket k) held = elim (made (socket k) held) [
  | inl old ↦ old
  | inr new ↦ absurd (cc new)
]
closed-Made sock i w w' d made h (session k) held = elim (made (session k) held) [
  | inl old ↦ old
  | inr new ↦ absurd (cc new)
]
closed-Made sock i w w' d made h (disk k) held = elim (put_disk-held i k d w' held) [
  | inl (_, still) ↦ absurd (cc)
  | inr (other, before) ↦ elim (made (disk k) before) [
    | inl old ↦ old
    | inr new ↦ absurd (other (cc new))
  ]
]

-- The disk after the exchange is open as it was if that returned, and closed if it raised.
put_disk-Takes :
    (sock i : ℕ) (w w' : World) (x : Result (Unit {0})) (d : NfcDisk)
    → Made sock i w w'
    → disk_open d ≡ (if is_ok x then disk_open (w'.disks i) else false)
    → Takes (socket sock) disk w (proceed (x, put_disk i d w') (λ _. pure i))
put_disk-Takes sock i w w' (ok u) d made h = λ r held.
    elim (passes-Made sock i w w' d made r held) [
      | inl before ↦ elim (made r before) [
        | inl (old, other) ↦ inl (old, λ e. absurd (other e))
        | inr new ↦ inr new
      ]
      | inr new ↦ inr new
    ]
put_disk-Takes sock i w w' (err e) d made h = closed-Made sock i w w' d made h

Made-over :
    (sock : ℕ) (a : OpenArgs) (w : World) → Made sock w.next_disk w (new_disk_over sock a w).1
unfolding new_disk_over
Made-over sock a w (disk k) h =
    let (held, other) = close_conn-Releases sock _ (disk k) h in
    elim (put_disk-held w.next_disk k (new_disk (w.conns sock) a) w held) [
      | inl (same, _) ↦ inr (ap disk same)
      | inr (_, old) ↦ inl (old, other)
    ]
Made-over sock a w (socket k) h = inl (close_conn-Releases sock _ (socket k) h)
Made-over sock a w (session k) h = inl (close_conn-Releases sock _ (session k) h)

Acquires-if :
    (b : Bool) (m n : Exec World ℕ)
    → Acquires socket m
    → Acquires socket n
    → Acquires socket (if b then m else n)
Acquires-if true m n km kn = km
Acquires-if false m n km kn = kn

Acquires-same :
    {A : Type 0} (own : A → Resource) (m n : Exec World A)
    → ((w : World) → m w ≡ n w)
    → Acquires own m
    → Acquires own n
Acquires-same own m n same k = record { at = λ w. subst (Gains own w) (same w) (k.at w) }

-- The system takes the options of a duplicated socket, and a TLS context can be made.
pub record TakesOptions (env : Env) : Type 0 where
  pub options : (w : World) (c : Conn) → env.set_options w c ≡ ok tt
  pub context : (w : World) → env.client_context w ≡ ok tt

module _ (env : Env) (takes : TakesOptions env) where
  takeover-Acquires : (fd : ℕ) → Acquires socket (takeover_authd_socket env fd)
  unfolding takeover_authd_socket
  takeover-Acquires fd =
      Acquires-same socket _ _ (λ w. same (new_conn (λ w. env.dup w (w.conns fd)) w))
        (new_conn-Acquires (λ w. env.dup w (w.conns fd)))
    where
      same :
          (r : Result ℕ × World)
          → r ≡ proceed r (λ raw w. proceed (env.set_options w (w.conns raw), w) (λ _. pure raw))
      same (ok raw, w) = rw (takes.options w (w.conns raw)) refl
      same (err e, w) = refl

  take_socket-Acquires : (s : NfcAuthSession) → Acquires socket (take_socket env s)
  unfolding take_socket wrap_nfcssl_socket
  take_socket-Acquires s =
      Acquires-if s.nfc_ssl _ _
        (Acquires-same socket _ _ (λ w. same (takeover_authd_socket env s.authd_sock w))
          (Acquires-guarded socket socket close_conn _ _ (takeover-Acquires s.authd_sock)
            close_conn-Releases (λ raw. wrap_socket-Hands env raw s.ticket.host)))
        (takeover-Acquires s.authd_sock)
    where
      wrap : ℕ → Exec World ℕ
      wrap raw = on_error (close_conn raw) (wrap_socket env raw s.ticket.host)

      same :
          (r : Result ℕ × World)
          → proceed r wrap ≡ proceed r (λ raw w. proceed (env.client_context w, w) (λ _. wrap raw))
      same (ok raw, w) = rw (takes.context w) refl
      same (err e, w) = refl

  -- If the system takes the options of duplicated sockets, and TLS contexts can be made: if
  -- `open_disk` raises, in its argument checks, the take-over of the socket, the handshake or the
  -- opening of the file, nothing is open that was not open before; if it returns, the disk that it
  -- returns is all that is new.
  pub open_disk-Acquires : (s : NfcAuthSession) (a : OpenArgs) → Acquires disk (open_disk env s a)
  unfolding open_disk new_disk_over on_disk
  open_disk-Acquires s a = Acquires-after disk _ _ (Safe-lift (check_args a)) λ _. record {
    at = λ w.
        take-Gains socket disk _
          (λ sock w'.
            let made = Made-over sock a w' in
            let w1 : World = (new_disk_over sock a w').1 in
            put_disk-Takes sock w'.next_disk w' w1 (open_over a (w1.disks w'.next_disk)).0
              (open_over a (w1.disks w'.next_disk)).1 made
              (open_over_socket a (w1.disks w'.next_disk)))
          w (take_socket env s w).0 (take_socket env s w).1 ((take_socket-Acquires s).at w);
  }
