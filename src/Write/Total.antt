-- ===== src/Write/Total.antt =====
-- `write` (openvixdisklib/nfc_open.py) as a whole call, against any server.
use open_vix_disk_lib.Prelude.{
  ℕ, zero, suc, ◌+◌, ◌*◌, ◌≤◌, ◌<◌, ◌≡◌, ◌≢◌, refl, ap, inl, inr, Option, none, some, Bool, true,
  false, ◌||◌, ◌&&◌, not, ◌++◌, arith, ltb, leb, ◌==◌, length, length-take, length-drop, take, drop,
  Bool-cases, if◌then◌else◌, ltb→lt,
}
use open_vix_disk_lib.Error.{
  Error, Result, ok, err, out_of_fuel, value_error, protocol_error, no_sectors, unexpected_reply,
  fastlz_truncated,
}
use open_vix_disk_lib.Exec.{Exec, gets, proceed, ◌>>=◌, ◌>>◌, raise_if}
use open_vix_disk_lib.Exec.Runs.{
  Outcome, Runs, Yields, Any, Runs-gets, Runs-lift, Runs-raise_if, Runs-bind, Runs-weaken,
  bind-Outcome, and_then-Yields, if-Yields, further-Outcome,
}
use open_vix_disk_lib.Struct.{Bytes, pack}
use open_vix_disk_lib.Fastlz.{Codec, compress, strip_prefix, prefix_size}
use open_vix_disk_lib.AioMsg
use open_vix_disk_lib.Aio.{
  NfcDisk, on_sock, next_op_id, pack_aio_hdr, aio_recv_reply, nfc_compression_fastlz,
}
use open_vix_disk_lib.Aio.Yields.{pack-Yields, pack_aio_hdr-Yields}
use open_vix_disk_lib.Aio.Touches.{
  Touches, Touches-Preorder, on_sock-Runs, next_op_id-Runs, sendall-Runs, SameOut-Runs,
  aio_recv_reply-Runs,
}
use open_vix_disk_lib.Write.{fragment_fields, choose_extra, send_fragment, write_loop, write}

strip_prefix-Yields : (w : Option Bytes) → Yields Any (strip_prefix w)
unfolding strip_prefix
strip_prefix-Yields none = λ e. cc
strip_prefix-Yields (some w) =
    if-Yields Any (ltb (length w) prefix_size) (err (value_error fastlz_truncated))
      (ok (drop prefix_size w)) (λ _ e. cc) (λ _. tt)

compress-Yields : (lz : Codec) (chunk : Bytes) → Yields Any (compress lz chunk)
unfolding compress
compress-Yields lz chunk =
    strip_prefix-Yields (lz.compress chunk (if ltb (length chunk) 65536 then 1 else 2))

choose_extra-Yields :
    (lz : Codec) (compression : ℕ) (chunk : Bytes) → Yields Any (choose_extra lz compression chunk)
unfolding choose_extra
choose_extra-Yields lz compression chunk =
    if-Yields Any ((compression == nfc_compression_fastlz) && leb 16 (length chunk)) _ _
      (λ _. and_then-Yields Any Any (compress lz chunk) _ (compress-Yields lz chunk) (λ c _. tt))
      (λ _. tt)

disk-Runs : Runs Touches Any (gets (λ (d : NfcDisk). d))
disk-Runs = Runs-gets Touches-Preorder (λ d. d)

module _ (lz : Codec) (op_id disk_offset : ℕ) where
  send_fragment-Runs :
      (len at : ℕ) (chunk : Bytes)
      → Runs Touches Any (send_fragment lz op_id disk_offset len at chunk)
  unfolding send_fragment
  send_fragment-Runs len at chunk =
      let pre = Touches-Preorder in
      Runs-bind pre _ _ disk-Runs λ d _.
        Runs-bind pre {P = Any} _ _
          (Runs-lift pre (choose_extra lz d.compression chunk)
            (choose_extra-Yields lz d.compression chunk))
          λ x _.
            Runs-bind pre {P = Any} _ _
              (Runs-lift pre (pack (fragment_fields d disk_offset len at (length chunk) x))
                (pack-Yields (fragment_fields d disk_offset len at (length chunk) x)))
              λ payload _.
                Runs-bind pre {P = Any} _ _
                  (Runs-lift pre (pack_aio_hdr AioMsg.io (length payload) op_id)
                    (pack_aio_hdr-Yields AioMsg.io (length payload) op_id))
                  λ hdr _. on_sock-Runs _ (sendall-Runs (hdr ++ (payload ++ x.extra)))

  module _ (bytes : Bytes) where
    abbrev Rest : ℕ → ℕ → NfcDisk → Type 0
    Rest fuel at d =
        Outcome Touches Any d (write_loop lz fuel op_id disk_offset bytes at d).0
          (write_loop lz fuel op_id disk_offset bytes at d).1

    after_fragment :
        (fuel at : ℕ) (d : NfcDisk) (x : Result (Unit {0})) (t : NfcDisk)
        → ((t : NfcDisk) → 0 < t.aio_buffer_size → Rest fuel at t)
        → 0 < d.aio_buffer_size
        → Outcome Touches Any d x t
        → Outcome Touches Any d
            (proceed (x, t) (λ _. write_loop lz fuel op_id disk_offset bytes at)).0
            (proceed (x, t) (λ _. write_loop lz fuel op_id disk_offset bytes at)).1
    after_fragment fuel at d (err e) t rest hb o = o
    after_fragment fuel at d (ok u) t rest hb (r, _) =
        let same : t.aio_buffer_size ≡ d.aio_buffer_size =
          ap (λ (e : NfcDisk). e.aio_buffer_size) r.fixed in
        further-Outcome Touches-Preorder Any d t (write_loop lz fuel op_id disk_offset bytes at t).0
          (write_loop lz fuel op_id disk_offset bytes at t).1 r (rest t (omega arith))

    -- With a buffer of a byte at least, and a round for each byte that is left, the loop ends.
    write_loop-Outcome :
        (fuel at : ℕ) (d : NfcDisk)
        → 0 < d.aio_buffer_size
        → length bytes ≤ at + fuel
        → Rest fuel at d
    unfolding write_loop
    write_loop-Outcome zero at d hb enough = elim (Bool-cases (ltb at (length bytes))) [
      | inl more ↦ absurd (omega (arith, ltb→lt at (length bytes) more))
      | inr full ↦ rw full (Touches-Preorder.self d, tt)
    ]
    write_loop-Outcome (suc fuel) at d hb enough = elim (Bool-cases (ltb at (length bytes))) [
      | inr full ↦ rw full (Touches-Preorder.self d, tt)
      | inl more ↦
          let chunk : Bytes = take d.aio_buffer_size (drop at bytes) in
          let lt : at < length bytes = ltb→lt at (length bytes) more in
          let lc = length-take d.aio_buffer_size (drop at bytes) in
          let ld = length-drop at bytes in
          let enough' : length bytes ≤ (at + length chunk) + fuel = omega arith in
          rw more (
            after_fragment fuel (at + length chunk) d
              (send_fragment lz op_id disk_offset (length bytes) at chunk d).0
              (send_fragment lz op_id disk_offset (length bytes) at chunk d).1
              (λ t hb'. write_loop-Outcome fuel (at + length chunk) t hb' enough') hb
              ((send_fragment-Runs (length bytes) at chunk).at d))
    ]

-- The guards of `write`.
abbrev pub length_ok : NfcDisk → ℕ → ℕ → Bool
length_ok d len num_sectors = not (ltb num_sectors 1) && (len == num_sectors * d.sector_size)

-- Every outcome of `write`.
pub record WriteEnds (d : NfcDisk) (len num_sectors : ℕ) (r : Result (Unit {0}) × NfcDisk)
    : Type 0 where
  pub ends : r.0 ≢ err out_of_fuel
  pub touches : Touches d r.1
  pub kept : (length_ok d len num_sectors ≡ false) → (r.1 ≡ d) × ((e : Error) × (r.0 ≡ err e))

finished :
    (d : NfcDisk) (len num_sectors : ℕ) (x : Result (Unit {0})) (t : NfcDisk)
    → length_ok d len num_sectors ≡ true
    → Outcome Touches Any d x t
    → WriteEnds d len num_sectors (x, t)
finished d len num_sectors (ok u) t fine (r, _) = record {
  ends = λ q. cc;
  touches = r;
  kept = λ q. absurd (cc);
}
finished d len num_sectors (err e) t fine (r, ne) = record {
  ends = λ q. ne (cc);
  touches = r;
  kept = λ q. absurd (cc);
}

refused :
    (d : NfcDisk) (len num_sectors : ℕ) (e : Error)
    → e ≢ out_of_fuel
    → WriteEnds d len num_sectors (err e, d)
refused d len num_sectors e ne = record {
  ends = λ q. ne (cc);
  touches = Touches-Preorder.self d;
  kept = λ q. (refl, (e, refl));
}

acknowledge-Runs :
    (op_id : ℕ)
    → Runs Touches Any (do
      (rtype, rop, body) ← on_sock aio_recv_reply
      raise_if
          (not (rtype == AioMsg.io) || not (rop == op_id))
          (protocol_error (unexpected_reply rtype rop AioMsg.io op_id)))
acknowledge-Runs op_id =
    let pre = Touches-Preorder in
    Runs-bind pre _ _ (on_sock-Runs _ (SameOut-Runs _ aio_recv_reply-Runs)) λ reply _.
      Runs-weaken Touches _ Any _ (λ u _. tt)
        (Runs-raise_if pre (not (reply.0 == AioMsg.io) || not (reply.1 == op_id))
          (protocol_error (unexpected_reply reply.0 reply.1 AioMsg.io op_id)) (λ e. cc))

guarded : (a b : Bool) → a ≡ false → b ≡ true → (not a && b) ≡ true
guarded false b ea eb = eb
guarded true b ea eb = absurd (cc)

module _ (lz : Codec) (start_sector : ℕ) (bytes : Bytes) (d : NfcDisk)
    (hb : 0 < d.aio_buffer_size) where
  abbrev body : Exec NfcDisk (Unit {0})
  body = do
    op_id ← next_op_id
    write_loop lz (length bytes) op_id (start_sector * d.sector_size) bytes 0
    (rtype, rop, body) ← on_sock aio_recv_reply
    raise_if (not (rtype == AioMsg.io) || not (rop == op_id))
        (protocol_error (unexpected_reply rtype rop AioMsg.io op_id))

  body-Outcome : Outcome Touches Any d (body d).0 (body d).1
  unfolding next_op_id
  body-Outcome =
      let off : ℕ = start_sector * d.sector_size in
      let d1 : NfcDisk = record d { op_id = d.op_id + 1 } in
      let run = write_loop lz (length bytes) d.op_id off bytes 0 d1 in
      further-Outcome Touches-Preorder Any d d1 _ _ (next_op_id-Runs.at d).0 (
        bind-Outcome Touches-Preorder _ (λ _ _. acknowledge-Runs d.op_id) d1 run.0 run.1
          (write_loop-Outcome lz d.op_id off bytes (length bytes) 0 d1 hb (omega arith)))

  -- With a buffer of a byte at least, and whatever the server and the network do, `write` returns
  -- or raises within its rounds. It changes no field of the disk but the operation id, which does
  -- not fall, and the socket, which stays open or closed and keeps what was sent. If the number of
  -- sectors is zero or the data have another length than the sectors, it raises and changes
  -- nothing.
  pub write-WriteEnds :
      (num_sectors : ℕ)
      → WriteEnds d (length bytes) num_sectors (write lz start_sector num_sectors bytes d)
  unfolding write
  write-WriteEnds num_sectors = elim (Bool-cases (ltb num_sectors 1)) [
    | inl few ↦ rw few (refused d (length bytes) num_sectors (value_error no_sectors) (λ e. cc))
    | inr more ↦ elim (Bool-cases (length bytes == num_sectors * d.sector_size)) [
      | inr differ ↦ rw (more, differ) (refused d (length bytes) num_sectors _ (λ e. cc))
      | inl same ↦
          rw (more, same)
            (finished d (length bytes) num_sectors (body d).0 (body d).1
              (guarded (ltb num_sectors 1) (length bytes == num_sectors * d.sector_size) more same)
              body-Outcome)
    ]
  ]
