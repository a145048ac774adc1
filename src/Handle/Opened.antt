-- ===== src/Handle/Opened.antt =====
-- `VixDiskLibHandle.open` (openvixdisklib/openvixdisklib.py) on the transport "nbd", down to the
-- ticket, authd and the NFC session, with hosts that follow the protocols.
use open_vix_disk_lib.Prelude.{
  ℕ, ◌+◌, ◌≡◌, refl, ap, ◌∙◌, Bool, true, false, ◌&&◌, not, codes, none, some, List, ◌∷◌, ◌++◌,
  ◌==◌, ==_refl, text_eq, if◌then◌else◌,
}
use open_vix_disk_lib.Error.{ok}
use open_vix_disk_lib.Struct.{Bytes}
use open_vix_disk_lib.Text.{Text, encode_ascii}
use open_vix_disk_lib.Conn.{Arrival, Conn}
use open_vix_disk_lib.Conn.Receive.{Delivers}
use open_vix_disk_lib.Conn.Send.{CanSend}
use open_vix_disk_lib.AioMsg
use open_vix_disk_lib.Aio.{NfcDisk}
use open_vix_disk_lib.Aio.Frames.{frame}
use open_vix_disk_lib.Open.{OpenArgs, check_args, open_over, new_disk}
use open_vix_disk_lib.Open.Greeting.{Greeting, greeting, hello}
use open_vix_disk_lib.Open.Prepared.{Answers, prepared}
use open_vix_disk_lib.Open.Opened.{CanOpen, requests, opened, open_over_opens}
use open_vix_disk_lib.World.{World, Env, Ticket, Device, put_disk, close_conn}
use open_vix_disk_lib.World.Conns.{
  with_conn, new_conn_lem, conns-close_conn, put_conn-same, on_disk_lem, put_disk-same,
  disks-close_conn,
}
use open_vix_disk_lib.Authd.Accepted.{Answer, session_line, proxy_line}
use open_vix_disk_lib.Authd.Connected.{Reaches, IsTrusted, connect_authd_connects}
use open_vix_disk_lib.Vim.{register_nfc_types, virtual_disk_key, get_nfc_ticket}
use open_vix_disk_lib.Session.{
  takeover_authd_socket, NfcAuthSession, take_socket, new_disk_over, open_disk,
}
use open_vix_disk_lib.Handle.{
  Connection, DiskHandle, is_read_only, open_args, nfc_compression, open_enter,
}

-- The host gives the ticket: for reading, that of the machine's files; for writing, that of the disk
-- with the path, at the machine's host.
abbrev pub Gives : Env → Text → Bool → Text → Ticket → Type 0
Gives env vm true path ticket = (v : World) → env.get_vm_files v vm ≡ ok ticket
Gives env vm false path ticket =
    (devices : List Device) × (key host : ℕ) × ((v : World) → env.devices v vm ≡ ok devices)
    × (virtual_disk_key devices path ≡ ok key)
    × ((v : World) → env.runtime_host v vm ≡ ok host)
    × ((v : World) → env.random_access_open v vm key host ≡ ok ticket)

pub get_nfc_ticket_given :
    (env : Env) (vm : Text) (read_only : Bool) (path : Text) (ticket : Ticket) (w : World)
    → Gives env vm read_only path ticket
    → get_nfc_ticket env vm none none read_only (if read_only then none else some path) w
      ≡ (ok ticket, register_nfc_types env w)
unfolding get_nfc_ticket
get_nfc_ticket_given env vm true path ticket w gives = rw (gives (register_nfc_types env w)) refl
get_nfc_ticket_given env vm false path ticket w (devices, key, host, ds, found, at_host, gives) =
    let v : World = register_nfc_types env w in rw (ds v, found, at_host v, gives v) refl

-- Taking authd's socket over gives the socket `nfc`, which takes its options, and becomes that of a new
-- disk.
pub record TakesOver (env : Env) (nfc : Conn) : Type 0 where
  pub dups : (v : World) (c : Conn) → env.dup v c ≡ ok nfc
  pub options : (v : World) → env.set_options v nfc ≡ ok tt

-- The world in which the socket object under `fd` is a disk's.
abbrev disk_over : ℕ → OpenArgs → World → World
disk_over fd a w =
    close_conn fd
      (record (put_disk w.next_disk (new_disk (w.conns fd) a) w) { next_disk = w.next_disk + 1 })

module _ (env : Env) (nfc : Conn) where
  take_socket_lem :
      (s : NfcAuthSession) (w : World)
      → TakesOver env nfc
      → s.nfc_ssl ≡ false
      → take_socket env s w ≡ (ok w.next_conn, with_conn nfc w)
  unfolding take_socket takeover_authd_socket
  take_socket_lem s w takes plain =
      let made =
        new_conn_lem (λ w. env.dup w (w.conns s.authd_sock)) w nfc
          (takes.dups w (w.conns s.authd_sock)) in
      let taken = put_conn-same w.next_conn nfc w in
      rw (plain, made, taken, takes.options (with_conn nfc w)) refl

  pub open_disk_opens :
      (s : NfcAuthSession) (a : OpenArgs) (d : NfcDisk) (w : World)
      → TakesOver env nfc
      → s.nfc_ssl ≡ false
      → check_args a ≡ ok tt
      → open_over a (new_disk nfc a) ≡ (ok tt, d)
      → (v : World) × (open_disk env s a w ≡ (ok w.next_disk, v))
        × (v.disks w.next_disk ≡ d)
        × ((k : ℕ) → (k == w.next_conn) ≡ false → v.conns k ≡ w.conns k)
  unfolding open_disk new_disk_over
  open_disk_opens s a d w takes plain checked run_e =
      let fd : ℕ = w.next_conn in
      let i : ℕ = w.next_disk in
      let w1 : World = with_conn nfc w in
      let w2 : World = disk_over fd a w1 in
      let at_fd : w1.conns fd ≡ nfc = rw (==_refl fd) refl in
      let fresh : w2.disks i ≡ new_disk nfc a =
        ap (λ (f : ℕ → NfcDisk). f i) (disks-close_conn fd _)
        ∙ put_disk-same i (new_disk (w1.conns fd) a) w1
        ∙ ap (λ (c : Conn). new_disk c a) at_fd in
      let ran = on_disk_lem i (open_over a) w2 (new_disk nfc a) (ok tt) d fresh run_e in
      (
        put_disk i d w2,
        rw (checked, take_socket_lem s w takes plain, ran) refl,
        put_disk-same i d w2,
        (λ k other. conns-close_conn fd k _ other ∙ rw other refl),
      )

-- The host takes the connection of `connect_authd` and accepts each of its commands; `rest` is what
-- is left on the TLS socket.
pub record Accepts (env : Env) (ticket : Ticket) (allow_untrusted : Bool) (w : World) : Type 0 where
  pub raw : Conn
  pub tls : Conn
  pub banner : Answer (codes "220")
  pub first : Answer (codes "220")
  pub sha2 : Answer (codes "200")
  pub proxy : Answer (codes "200")
  pub session_b : Bytes
  pub proxy_b : Bytes
  pub behind : Bytes
  pub rest : Bytes
  pub reach : Reaches env ticket w raw tls
  pub raw_open : raw.is_open ≡ true
  pub greets : Delivers raw.incoming (banner.line ++ (10 ∷ behind))
  pub trusted : IsTrusted env ticket allow_untrusted
  pub session_encoded : encode_ascii (session_line ticket) ≡ ok session_b
  pub proxy_encoded : encode_ascii (proxy_line ticket false) ≡ ok proxy_b
  pub can_send : CanSend tls
  pub answers :
      Delivers tls.incoming (first.line ++ (10 ∷ (sha2.line ++ (10 ∷ (proxy.line ++ (10 ∷ rest))))))

-- The NFC session of a disk, over the socket `nfc`.
pub record Greets (a : OpenArgs) (nfc : Conn) (r : Answers) (ys : Bytes) : Type 0 where
  pub name_b : Bytes
  pub op_b : Bytes
  pub path_b : Bytes
  pub greeting_ : Greeting
  pub can_open : CanOpen a name_b op_b path_b
  pub can_send : CanSend nfc
  pub answers :
      Delivers nfc.incoming (greeting greeting_ (prepared r 0 (frame AioMsg.open_file 3 r.file ys)))

-- The requests of the session.
abbrev pub session_frames :
    {nfc : Conn} {r : Answers} {ys : Bytes} → (a : OpenArgs) → Greets a nfc r ys → List Bytes
session_frames a g = hello g.name_b g.op_b a.version ++ requests a g.path_b

-- The flags select a compression, ask for writing only on a connection for writing, and the sizes are
-- ones that `open_disk` takes.
pub record CanEnter (conn : Connection) (flags : ℕ) (a : OpenArgs) : Type 0 where
  pub selects : nfc_compression flags ≡ ok a.compression
  pub may_write : (not (is_read_only flags) && conn.read_only) ≡ false
  pub plain : text_eq conn.transport_mode (codes "nbdssl") ≡ false
  pub checked : check_args a ≡ ok tt

module _ (env : Env) (conn : Connection) (path : Text) (flags compression size count : ℕ)
    (w : World) (ticket : Ticket) (nfc : Conn) (r : Answers) (ys : Bytes) where
  abbrev args : OpenArgs
  args = open_args path (is_read_only flags) compression size count

  -- With hosts that follow the protocols, the opening of the handle returns an open disk over the
  -- socket that was taken over.
  pub open_enter_opens :
      CanEnter conn flags args
      → Gives env conn.vm_moref (is_read_only flags) path ticket
      → Accepts env ticket conn.allow_untrusted (register_nfc_types env w)
      → TakesOver env nfc
      → (g : Greets args nfc r ys)
      → (h : DiskHandle) × (v : World) × (rest : List Arrival) × (open_enter env conn path flags
            size count w
          ≡ (ok h, v))
        × (v.disks h.disk ≡ opened args r nfc (session_frames args g) rest)
        × (h.transport_mode ≡ conn.transport_mode)
        × Delivers rest ys
  unfolding open_enter
  open_enter_opens can gives acc takes g =
      let w1 : World = register_nfc_types env w in
      let given = get_nfc_ticket_given env conn.vm_moref (is_read_only flags) path ticket w gives in
      let (w2, _, e, _, _, _) =
        connect_authd_connects env ticket conn.allow_untrusted false acc.session_b acc.proxy_b w1
          acc.raw acc.tls acc.banner acc.first acc.sha2 acc.proxy acc.rest acc.behind acc.reach
          acc.raw_open acc.greets acc.trusted acc.session_encoded acc.proxy_encoded acc.can_send
          acc.answers in
      let (rest, run_e, del) =
        open_over_opens args g.name_b g.op_b g.path_b g.greeting_ r ys nfc g.can_open g.can_send
          g.answers in
      let s : NfcAuthSession = record {
        si = conn.si;
        ticket = ticket;
        authd_sock = w1.next_conn + 1;
        nfc_ssl = false;
      } in
      let (v, opens, is_disk, _) =
        open_disk_opens env nfc s args (opened args r nfc (session_frames args g) rest) w2 takes
          refl can.checked run_e in
      (
        record {
          disk = w2.next_disk;
          authd_sock = w1.next_conn + 1;
          transport_mode = conn.transport_mode;
        },
        v,
        rest,
        rw (can.selects, can.may_write, can.plain, given, e, opens) refl,
        is_disk,
        refl,
        del,
      )
