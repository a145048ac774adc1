-- ===== src/Open/Total.antt =====
-- `open_disk` over its socket (openvixdisklib/nfc_open.py) against any server.
use open_vix_disk_lib.Prelude.{
  ℕ, ◌≡◌, ◌≢◌, refl, sym, ap, ◌∙◌, Bool, List, [], ◌∷◌, ltb, length, replicate,
}
use open_vix_disk_lib.Error.{Result, ok, err, out_of_fuel, protocol_error, version_too_old}
use open_vix_disk_lib.Exec.{Exec, lift, gets, modify, clean_up}
use open_vix_disk_lib.Exec.Runs.{
  Preorder, Outcome, Runs, Any, Runs-pure, Runs-lift, Runs-gets, Runs-bind, Runs-then,
  Runs-raise_if,
}
use open_vix_disk_lib.Struct.{Bytes, Field, u32, pack, unpack_from}
use open_vix_disk_lib.Conn.{Conn, ljust}
use open_vix_disk_lib.Text.{Text, encode_ascii, encode_utf8}
use open_vix_disk_lib.AioMsg
use open_vix_disk_lib.NfcMsg
use open_vix_disk_lib.Aio.{NfcDisk, aio_roundtrip}
use open_vix_disk_lib.Aio.Yields.{pack-Yields, unpack_from-Yields}
use open_vix_disk_lib.Aio.Touches.{
  Speaks, Speaks-Preorder, Touches, on_sock-Runs, sendall-Runs, aio_roundtrip-Runs,
}
use open_vix_disk_lib.Open.{
  nfc_session_feature_interruption_switch, plain_text, handshake, aio_prepare, parse_open_reply,
  open_file, OpenArgs, new_disk, close_sock, open_steps, open_over,
}
use open_vix_disk_lib.Open.Ends.{send_nfc_msg-Runs, expect_msg-Runs}
use open_vix_disk_lib.Open.Yields.{encode_ascii-Yields, encode_utf8-Yields, parse_open_reply-Yields}

-- But for the operation id, the socket, the handle and the sector size a disk is as it was.
pub record Opens (d e : NfcDisk) : Type 0 where
  pub fixed :
      e
      ≡ record d { op_id = e.op_id; sock = e.sock; handle = e.handle; sector_size = e.sector_size }

Opens-Preorder : Preorder Opens
Opens-Preorder = record {
  self = λ d. record { fixed = refl };
  compose = λ d e f p q. record {
    fixed =
        q.fixed
        ∙ ap
            (λ (g : NfcDisk). record g {
              op_id = f.op_id;
              sock = f.sock;
              handle = f.handle;
              sector_size = f.sector_size;
            })
            p.fixed;
  };
}

Touches-Opens : (d e : NfcDisk) → Touches d e → Opens d e
Touches-Opens d e t = record {
  fixed =
      t.fixed
      ∙ ap
          (λ (g : NfcDisk). record d {
            op_id = e.op_id;
            sock = e.sock;
            handle = g.handle;
            sector_size = g.sector_size;
          })
          (sym t.fixed);
}

weaken-Outcome :
    {A : Type 0} (d : NfcDisk) (x : Result A) (e : NfcDisk)
    → Outcome Touches Any d x e
    → Outcome Opens Any d x e
weaken-Outcome d (ok a) e (t, p) = (Touches-Opens d e t, p)
weaken-Outcome d (err f) e (t, ne) = (Touches-Opens d e t, ne)

Touches-Runs : {A : Type 0} (m : Exec NfcDisk A) → Runs Touches Any m → Runs Opens Any m
Touches-Runs m km = record { at = λ d. weaken-Outcome d (m d).0 (m d).1 (km.at d) }

packs : (fs : List Field) → Runs Speaks Any (lift (pack fs))
packs fs = Runs-lift Speaks-Preorder (pack fs) (pack-Yields fs)

packs_disk : (fs : List Field) → Runs Opens Any (lift (pack fs))
packs_disk fs = Runs-lift Opens-Preorder (pack fs) (pack-Yields fs)

handshake-Runs :
    (client_name op_id : Text) (version : ℕ) → Runs Speaks Any (handshake client_name op_id version)
unfolding handshake
handshake-Runs client_name op_id version =
    let pre = Speaks-Preorder in
    Runs-then pre _ _ (send_nfc_msg-Runs NfcMsg.handshake plain_text) (
      Runs-then pre _ _ (send_nfc_msg-Runs NfcMsg.session_params []) (
        Runs-then pre _ _ (expect_msg-Runs NfcMsg.session_params_reply) (
          Runs-bind pre {P = Any} _ _ (packs (u32 version ∷ [])) λ version_body _.
            Runs-then pre _ _ (send_nfc_msg-Runs NfcMsg.version version_body) (
              Runs-bind pre _ _ (expect_msg-Runs NfcMsg.version) λ body _.
                Runs-bind pre {P = Any} _ _
                  (Runs-lift pre (unpack_from 4 body 0) (unpack_from-Yields 4 body 0))
                  λ remote_version _.
                    Runs-bind pre _ _
                      (Runs-raise_if pre (ltb remote_version 3)
                        (protocol_error (version_too_old remote_version)) (λ e. cc))
                      λ _ _.
                        Runs-bind pre {P = Any} _ _
                          (Runs-lift pre (encode_ascii client_name)
                            (encode_ascii-Yields client_name))
                          λ name_b _.
                            Runs-bind pre {P = Any} _ _
                              (Runs-lift pre (encode_ascii op_id) (encode_ascii-Yields op_id))
                              λ op_b _.
                                Runs-bind pre {P = Any} _ _
                                  (packs (u32 (length name_b) ∷ u32 (length op_b) ∷ []))
                                  λ lengths _.
                                    Runs-then pre _ _
                                      (send_nfc_msg-Runs NfcMsg.connection_data lengths)
                                      (Runs-then pre _ _ (sendall-Runs name_b) (
                                        Runs-then pre _ _ (sendall-Runs op_b) (
                                          Runs-bind pre {P = Any} _ _
                                            (packs
                                              (u32 nfc_session_feature_interruption_switch ∷ []))
                                            λ features _.
                                              Runs-then pre _ _
                                                (send_nfc_msg-Runs NfcMsg.session_features features)
                                                (Runs-then pre _ _
                                                  (send_nfc_msg-Runs NfcMsg.aio_session_open [])
                                                  (Runs-then pre _ _
                                                    (expect_msg-Runs NfcMsg.aio_session_open)
                                                    (Runs-pure pre tt tt))))))))))

disk-Runs : Runs Opens Any (gets (λ (d : NfcDisk). d))
disk-Runs = Runs-gets Opens-Preorder (λ d. d)

exchange-Runs : (t : ℕ) (payload extra : Bytes) → Runs Opens Any (aio_roundtrip t payload extra 0)
exchange-Runs t payload extra = Touches-Runs _ (aio_roundtrip-Runs t payload extra 0)

aio_prepare-Runs : Runs Opens Any aio_prepare
unfolding aio_prepare
aio_prepare-Runs =
    let pre = Opens-Preorder in
    Runs-bind pre _ _ disk-Runs λ disk _.
      Runs-bind pre {P = Any} _ _
        (packs_disk (u32 0 ∷ u32 disk.aio_buffer_size ∷ u32 disk.aio_buffer_count ∷ u32 0 ∷ []))
        λ open_session _. Runs-then pre _ _ (exchange-Runs AioMsg.open_session open_session []) (
          Runs-then pre _ _ (exchange-Runs AioMsg.set_sock_opts (replicate 12 0) []) (
            Runs-bind pre {P = Any} _ _ (packs_disk (u32 1 ∷ [])) λ res_pool _.
              Runs-then pre _ _ (exchange-Runs AioMsg.set_res_pool res_pool [])
                (Runs-pure pre tt tt)))

set_fields-Runs :
    (h s : ℕ) → Runs Opens Any (modify (λ (d : NfcDisk). record d { handle = h; sector_size = s }))
set_fields-Runs h s = record { at = λ d. (record { fixed = refl }, tt) }

open_file-Runs : (path : Text) (read_only : Bool) → Runs Opens Any (open_file path read_only)
unfolding open_file
open_file-Runs path read_only =
    let pre = Opens-Preorder in
    Runs-bind pre {P = Any} _ _ (Runs-lift pre (encode_utf8 path) (encode_utf8-Yields path))
      λ path_b _. Runs-bind pre {P = Any} _ _ (packs_disk _) λ open_body _.
        Runs-bind pre _ _ (exchange-Runs AioMsg.open_file (ljust 60 open_body) path_b) λ reply _.
          Runs-bind pre {P = Any} _ _
            (Runs-lift pre (parse_open_reply reply) (parse_open_reply-Yields reply))
            λ v _. set_fields-Runs v.0 v.1

open_steps-Runs : (a : OpenArgs) → Runs Opens Any (open_steps a)
unfolding open_steps
open_steps-Runs a =
    let pre = Opens-Preorder in
    Runs-then pre _ _
      (Touches-Runs _ (on_sock-Runs _ (handshake-Runs a.client_name a.op_id a.version)))
      (Runs-then pre _ _ aio_prepare-Runs (open_file-Runs a.disk_path a.read_only))

-- Every outcome of the steps of `open_disk` over its socket.
pub record OpenEnds (a : OpenArgs) (c : Conn) (r : Result (Unit {0}) × NfcDisk) : Type 0 where
  pub ends : r.0 ≢ err out_of_fuel
  pub opens : Opens (new_disk c a) r.1

clean_up-OpenEnds :
    (a : OpenArgs) (c : Conn) (x : Result (Unit {0})) (d : NfcDisk)
    → Outcome Opens Any (new_disk c a) x d
    → OpenEnds a c (clean_up close_sock (x, d))
clean_up-OpenEnds a c (ok u) d (r, _) = record { ends = λ q. cc; opens = r }
clean_up-OpenEnds a c (err e) d (r, ne) = record {
  ends = λ q. ne (cc);
  opens = record { fixed = ap (λ (g : NfcDisk). record g { sock = (close_sock d).sock }) r.fixed };
}

-- Whatever the server and the network do, the steps of `open_disk` over its socket return or raise
-- within their rounds, and change no field of the new disk but the operation id, the socket, the
-- handle and the sector size.
pub open_over-OpenEnds : (a : OpenArgs) (c : Conn) → OpenEnds a c (open_over a (new_disk c a))
unfolding open_over
open_over-OpenEnds a c =
    let d : NfcDisk = new_disk c a in
    clean_up-OpenEnds a c (open_steps a d).0 (open_steps a d).1 ((open_steps-Runs a).at d)
