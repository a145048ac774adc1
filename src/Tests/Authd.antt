-- ===== src/Tests/Authd.antt =====
-- A connection to authd that is accepted.
use open_vix_disk_lib.Prelude.{inl, inr, true, false, codes, ◌≡◌, refl, arith, List, [], ◌∷◌}
use open_vix_disk_lib.World.{World, Env}
use open_vix_disk_lib.Authd.{connect_authd}
use open_vix_disk_lib.Authd.Connected.{IsTrusted, connect_authd_connects}
use open_vix_disk_lib.Authd.Pinned.{nothing, separator, digit}
use open_vix_disk_lib.Error.{ok, err, os_error}
use open_vix_disk_lib.Open.{check_args}
use open_vix_disk_lib.World.Conns.{with_conn}
use open_vix_disk_lib.World.Flags.{is_held, socket}
use open_vix_disk_lib.Session.{open_disk}
use open_vix_disk_lib.Session.Takeover.{open_disk_leaves_open}
use open_vix_disk_lib.Text.{encode_ascii, decode_ascii, starts_with, rstrip_eol}
use open_vix_disk_lib.Conn.{Arrival, Conn, piece}
use open_vix_disk_lib.Conn.Receive.{Delivers}
use open_vix_disk_lib.Authd.{proxy_service}
use open_vix_disk_lib.Authd.Accepted.{Answer, session_line, proxy_line, commands}
use open_vix_disk_lib.Tests.{conn_with, disk_with}
use open_vix_disk_lib.Tests.Leaks.{env, ticket, auth_session, args}

pub greeted_220 : starts_with (rstrip_eol (decode_ascii (codes "220\r\n"))) (codes "220") ≡ true
unfolding decode_ascii starts_with rstrip_eol
greeted_220 = refl

pub done_200 : starts_with (rstrip_eol (decode_ascii (codes "200\r\n"))) (codes "200") ≡ true
unfolding decode_ascii starts_with rstrip_eol
done_200 = refl

-- The answers of authd, and what it says: the last piece is of the TLS handshake behind them.
abbrev pub greeted : Answer (codes "220")
greeted = record {
  line = codes "220\r";
  plain =
      ((λ e. omega arith), ((λ e. omega arith), ((λ e. omega arith), ((λ e. omega arith), tt))));
  short = omega arith;
  accepted = greeted_220;
}

abbrev pub accepted : Answer (codes "200")
accepted = record {
  line = codes "200\r";
  plain =
      ((λ e. omega arith), ((λ e. omega arith), ((λ e. omega arith), ((λ e. omega arith), tt))));
  short = omega arith;
  accepted = done_200;
}

abbrev pub authd : List Arrival
authd = piece (codes "220\r\n2") ∷ piece (codes "00\r\n200\r") ∷ piece (10 ∷ 22 ∷ []) ∷ []

pub session_encoded : encode_ascii (session_line ticket) ≡ ok (codes "SESSION 52\r\n")
unfolding encode_ascii
session_encoded = refl

pub proxy_encoded : encode_ascii (proxy_line ticket false) ≡ ok (codes "PROXY vpxa-nfc\r\n")
unfolding encode_ascii proxy_service
proxy_encoded = refl

-- A process that holds nothing.
abbrev pub idle : World
idle = record {
  conns = λ fd. record { incoming = []; sent = []; send_faults = []; is_open = false };
  next_conn = 3;
  disks = λ i. record (disk_with []) {
    sock = record { incoming = []; sent = []; send_faults = []; is_open = false };
  };
  next_disk = 0;
  sessions = λ i. false;
  next_session = 0;
  types_registered = false;
  types_created = 0;
}

-- The banner in plain text, and the answers over TLS.
abbrev pub plain : Conn
plain = conn_with (piece (codes "220\r\n") ∷ [])

abbrev pub host : Env
host = record env {
  create_connection = λ w name port. ok plain;
  wrap_socket = λ w raw name. ok (conn_with authd);
}

pub pinned : IsTrusted host ticket false
pinned = inr (
    inr (
      inr (
        codes "01:02",
        refl,
        λ v c. (
          λ e. cc,
          digit (inl (omega arith, refl)) (
              digit (inl (omega arith, refl)) (
                separator (inl refl)
                  (digit (inl (omega arith, refl)) (digit (inl (omega arith, refl)) nothing)))),
        ),
      )))

connect_authd_connects_example :
    (v : World) × (rest : List Arrival) × (connect_authd host ticket false false idle ≡ (ok 4, v))
    × (v.conns 4 ≡ record (conn_with rest) {
      sent = commands (codes "SESSION 52\r\n") (codes "PROXY vpxa-nfc\r\n");
    })
    × ((v.conns 3).is_open ≡ false)
    × Delivers rest (22 ∷ [])
connect_authd_connects_example =
    connect_authd_connects host ticket false false (codes "SESSION 52\r\n")
      (codes "PROXY vpxa-nfc\r\n") idle plain (conn_with authd) greeted greeted accepted accepted
      (22 ∷ []) [] (record { connects = refl; wraps = λ v c. refl }) refl
      (record { pieces = (tt, tt); bytes = refl }) pinned session_encoded proxy_encoded
      (record { is_open = refl; no_faults = refl })
      (record { pieces = (tt, (tt, (tt, tt))); bytes = refl })

-- A system that does not take the options of the duplicated socket.
abbrev stiff : Env
stiff = record env { dup = λ w raw. ok plain; set_options = λ w c. err os_error }

args_checked : check_args args ≡ ok tt
unfolding check_args
args_checked = refl

open_disk_leaves_open_example :
    (open_disk stiff auth_session args idle ≡ (err os_error, with_conn plain idle))
    × (is_held (with_conn plain idle) (socket 3) ≡ true)
open_disk_leaves_open_example =
    open_disk_leaves_open stiff auth_session args idle plain os_error args_checked (λ c. refl) refl
      (inl refl)
