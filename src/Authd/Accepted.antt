-- ===== src/Authd/Accepted.antt =====
-- The commands of the authd handshake (openvixdisklib/nfc_auth.py) with a daemon that accepts them.
use open_vix_disk_lib.Prelude.{
  ◌<◌, ◌≡◌, ◌≢◌, refl, ap, Bool, true, codes, List, [], ◌∷◌, ◌++◌, length, drop, All,
}
use open_vix_disk_lib.Error.{ok}
use open_vix_disk_lib.Struct.{Bytes}
use open_vix_disk_lib.Text.{Text, encode_ascii, decode_ascii, starts_with, lstrip, rstrip_eol}
use open_vix_disk_lib.Conn.{Arrival, Conn}
use open_vix_disk_lib.Conn.Receive.{Delivers}
use open_vix_disk_lib.Conn.Send.{CanSend, able, in_turn-append, sendall_lem}
use open_vix_disk_lib.Conn.Messages.{sending}
use open_vix_disk_lib.World.{Ticket}
use open_vix_disk_lib.Authd.{
  max_line, readline, expect_code, expect_line, send_text, crlf, proxy_service, authd_commands,
}
use open_vix_disk_lib.Authd.Delivered.{read_until_eol_lem}

-- A line of the daemon, without its line feed, that begins with a code.
pub record Answer (code : Text) : Type 0 where
  pub line : Bytes
  pub plain : All (λ b. b ≢ 10) line
  pub short : length line < max_line
  pub accepted : starts_with (rstrip_eol (decode_ascii (line ++ (10 ∷ [])))) code ≡ true

-- The answer as `_readline` returns it.
abbrev pub answer : {code : Text} → Answer code → Text
answer a = rstrip_eol (decode_ascii (a.line ++ (10 ∷ [])))

pub readline_lem :
    {code : Text} (a : Answer code) (ys : Bytes) (c : Conn)
    → c.is_open ≡ true
    → Delivers c.incoming (a.line ++ (10 ∷ ys))
    → (rest : List Arrival) × (readline c ≡ (ok (answer a), record c { incoming = rest }))
      × Delivers rest ys
unfolding readline
readline_lem a ys c o del =
    let (rest, e, del') = read_until_eol_lem c a.line ys o a.plain a.short del in
    (rest, rw e refl, del')

expect_line_lem :
    (code what : Text) (a : Answer code) (ys : Bytes) (c : Conn)
    → c.is_open ≡ true
    → Delivers c.incoming (a.line ++ (10 ∷ ys))
    → (rest : List Arrival) × (expect_line code what c
        ≡ (ok (lstrip (drop (length code) (answer a))), record c { incoming = rest }))
      × Delivers rest ys
unfolding expect_line expect_code
expect_line_lem code what a ys c o del =
    let (rest, e, del') = readline_lem a ys c o del in (rest, rw (e, a.accepted) refl, del')

send_text_lem :
    (line : Text) (bs : Bytes) (c : Conn)
    → encode_ascii line ≡ ok bs
    → CanSend c
    → send_text line c ≡ (ok tt, sending (bs ∷ []) c)
unfolding send_text
send_text_lem line bs c enc can = rw (enc, sendall_lem c bs can) refl

-- What the client says.
abbrev pub session_line : Ticket → Text
session_line ticket = codes "SESSION " ++ (ticket.session_id ++ crlf)

abbrev pub proxy_line : Ticket → Bool → Text
proxy_line ticket nfc_ssl = codes "PROXY " ++ (proxy_service ticket nfc_ssl ++ crlf)

abbrev pub commands : Bytes → Bytes → List Bytes
commands session_b proxy_b =
    session_b
    ∷ (codes "BANNER " ++ crlf)
    ∷ (codes "THUMBPRINT_SHA2 PlainText" ++ crlf)
    ∷ proxy_b
    ∷ []

banner_encoded : encode_ascii (codes "BANNER " ++ crlf) ≡ ok (codes "BANNER " ++ crlf)
unfolding encode_ascii
banner_encoded = refl

sha2_encoded :
    encode_ascii (codes "THUMBPRINT_SHA2 PlainText" ++ crlf)
    ≡ ok (codes "THUMBPRINT_SHA2 PlainText" ++ crlf)
unfolding encode_ascii
sha2_encoded = refl

-- If an open socket to authd can send, the command lines can be encoded, and authd answers BANNER,
-- THUMBPRINT_SHA2 and PROXY with lines of fewer than 4096 bytes that begin with 220, 200 and 200,
-- cut into any nonempty pieces, then the commands return, the four of them went out in this order,
-- and no byte behind the line feed of the last answer is read, so that the bytes of the NFC
-- protocol are left on the socket.
pub authd_commands_lem :
    (ticket : Ticket) (nfc_ssl : Bool) (session_b proxy_b : Bytes) (banner : Answer (codes "220"))
    (sha2 proxy : Answer (codes "200")) (ys : Bytes) (c : Conn)
    → encode_ascii (session_line ticket) ≡ ok session_b
    → encode_ascii (proxy_line ticket nfc_ssl) ≡ ok proxy_b
    → CanSend c
    → Delivers c.incoming (banner.line ++ (10 ∷ (sha2.line ++ (10 ∷ (proxy.line ++ (10 ∷ ys))))))
    → (rest : List Arrival) × (authd_commands ticket nfc_ssl c
        ≡ (ok tt, record c { incoming = rest; sent = c.sent ++ commands session_b proxy_b }))
      × Delivers rest ys
unfolding authd_commands
authd_commands_lem ticket nfc_ssl session_b proxy_b banner sha2 proxy ys c es ep can del =
    let c1 : Conn = sending (session_b ∷ []) c in
    let c2 : Conn = sending ((codes "BANNER " ++ crlf) ∷ []) c1 in
    let (r2, e2, d2) =
      expect_line_lem (codes "220") (codes "BANNER") banner
        (sha2.line ++ (10 ∷ (proxy.line ++ (10 ∷ ys)))) c2 can.is_open del in
    let c3 : Conn = record c2 { incoming = r2 } in
    let c4 : Conn = sending ((codes "THUMBPRINT_SHA2 PlainText" ++ crlf) ∷ []) c3 in
    let (r4, e4, d4) =
      expect_line_lem (codes "200") (codes "THUMBPRINT_SHA2") sha2 (proxy.line ++ (10 ∷ ys)) c4
        can.is_open d2 in
    let c5 : Conn = record c4 { incoming = r4 } in
    let c6 : Conn = sending (proxy_b ∷ []) c5 in
    let (r6, e6, d6) = expect_line_lem (codes "200") (codes "PROXY") proxy ys c6 can.is_open d4 in
    (
      r6,
      rw
          (
            send_text_lem (session_line ticket) session_b c es can,
            send_text_lem (codes "BANNER " ++ crlf) _ c1 banner_encoded (able can refl refl),
            e2,
            send_text_lem (codes "THUMBPRINT_SHA2 PlainText" ++ crlf) _ c3 sha2_encoded
                (able can refl refl),
            e4,
            send_text_lem (proxy_line ticket nfc_ssl) proxy_b c5 ep (able can refl refl),
            e6,
          )
          (ap (λ (t : List Bytes). (ok tt, record c { incoming = r6; sent = t }))
            (in_turn-append c.sent (commands session_b proxy_b))),
      d6,
    )
