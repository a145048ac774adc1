-- ===== src/Lib.antt =====
-- OpenVixDiskLib, a replacement of VMware's VDDK in Python, over NFC.
--
-- A caller of openvixdisklib/openvixdisklib.py logs in to vCenter or ESXi over SOAP (pyVmomi), gets a
-- ticket for a disk, hands the ticket to the authd daemon of a host over TLS, and speaks the NFC
-- protocol over that connection: classic messages of 264 bytes, then AIO frames. Disk reads come back
-- in fragments, in any order, raw or compressed with FastLZ; writes go out in fragments.
--
-- Where the parts are:
--   Fastlz        openvixdisklib/fastlz.py; the pip module is the record `Codec`, and `IsLawful` is what
--                 it documents.
--   Struct        Python's `struct` for the formats in use, with its range checks.
--   Conn          sockets, `_recvn`, `_recvn_into`, classic messages (openvixdisklib/nfc_open.py). The
--                 state of a socket is what the network will still bring, in pieces, and what was sent.
--   Aio           AIO headers, `NfcDisk` and its request and reply methods. AioMsg and NfcMsg are the
--                 message types.
--   Read, Write   `NfcDisk.readinto`, `read` and `write`. Read.Fragment is one round of the read loop.
--   Open          the handshake, `_aio_prepare`, `open_disk` over a socket, `NfcDisk.close`.
--   Life          `readinto`, `read`, `write` and `close` in any sequence; Life.Device, reads and writes
--                 against a block device, whose server reads the requests that were sent.
--   Thumbprint, Text
--                 thumbprints (openvixdisklib/nfc_auth.py), and the methods of `str` that are called.
--   World         the sockets, disks and sessions of the process, each under a number; the record `Env`
--                 is pyVmomi, `ssl`, `socket` and `hashlib`.
--   Authd         the authd handshake, `connect_authd` (openvixdisklib/nfc_auth.py).
--   Vim           logins and tickets, `connect_vim`, `get_nfc_ticket` (openvixdisklib/nfc_auth.py).
--   Session       `authenticate`, the two ways to take over authd's socket, `open_disk`.
--   Handle        openvixdisklib/openvixdisklib.py.
--   Probe         the parser of docs/probing_samples/vddk_aio_bufsize_probe.py, which finds AIO frames in
--                 a trace of system calls.
--   WriteProbe    the requests of docs/probing_samples/nfc_write_probe.py.
--   Error, Exec   exceptions as values, and methods that change a state and may raise. Exec.Runs has the
--                 rules for methods that end and keep a relation between the states.
--   Prelude       what all share. Tests has concrete runs.
--
-- A method is a function from the state to a result or an exception and the state afterwards; what was
-- changed before a raise stays changed. A `with` statement takes its body as an action.
--
-- Loops run on fuel: `_recvn_into` and the probe's `recvn` on the size, the read loop on the length of
-- the request, the write loop on the length of the data, `_readline` on the longest line and one byte,
-- the parser of traces on the length of the trace. A round that goes on receives, fills, sends or
-- reads a byte at least, so the fuel is enough; running out is an error of its own, `out_of_fuel`,
-- that no code catches.
--
-- Numbers are natural numbers: sectors, sizes and lengths of a caller are not negative. Bytes are
-- numbers that the code itself keeps below 256. A `recv` gives what was delivered, at most as many
-- bytes as were asked for; an empty piece, or no further one, is the end of the stream.
--
-- The options of the socket that is taken over, and the TLS context of the second session, are
-- functions of `Env` that may raise, since no cleanup of the code covers them.
--
-- Not modelled: logging; what time-outs and TCP_NODELAY do, and their setting elsewhere; the TLS
-- context of the first session, and what a context has, since the handshake is a function of `Env`;
-- `exit`, which does nothing; in docs/probing_samples, the loop of nfc_write_probe.py over flags, and
-- the scripts that call VMware's library through ctypes or run strace, and print what they see.
pub mod Prelude
pub mod Error
pub mod Exec
pub mod Struct
pub mod Conn
pub mod Fastlz
pub mod AioMsg
pub mod NfcMsg
pub mod Aio
pub mod Read
pub mod Write
pub mod Text
pub mod Open
pub mod World
pub mod Thumbprint
pub mod Authd
pub mod Vim
pub mod Probe
pub mod WriteProbe
pub mod Session
pub mod Handle
pub mod Life
pub mod Tests
