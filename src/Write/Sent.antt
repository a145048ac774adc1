-- ===== src/Write/Sent.antt =====
-- The frames of a whole `write` (openvixdisklib/nfc_open.py), and a server that stores them.
use open_vix_disk_lib.Prelude.{
  ℕ, zero, suc, ◌+◌, ◌-◌, ◌*◌, ◌^◌, ◌≤◌, ◌<◌, ◌≡◌, refl, sym, ap, ◌∙◌, List, [], ◌∷◌, ◌++◌,
  append_assoc, append-nil, arith, ltb, min, length, length-take, length-drop, take, drop,
  drop-drop, blit, length-blit, blit-blit, blit_nil, All, lt→ltb, le→ltb_false, drop_all,
  Bool-cases, inl, inr, ltb→lt, ltb_false→le,
}
use open_vix_disk_lib.Error.{Result, ok, and_then}
use open_vix_disk_lib.Struct.{Bytes}
use open_vix_disk_lib.Struct.Laws.{Fits}
use open_vix_disk_lib.Conn.Send.{CanSend}
use open_vix_disk_lib.Fastlz.{Codec, IsLawful}
use open_vix_disk_lib.Aio.{NfcDisk}
use open_vix_disk_lib.Aio.Frames.{IsU32}
use open_vix_disk_lib.Write.{Extra, fragment_fields, send_fragment, write_loop}
use open_vix_disk_lib.Write.Fragments.{
  Expected, expected, store_frame, Carries, Carries-length, choose_extra_lem, fragment_frame,
  length-fragment_frame, send_fragment_lem,
}
use open_vix_disk_lib.Write.Stored.{store_frame_lem}

-- The server takes the frames one after the other.
pub store : Codec → Expected → List Bytes → Bytes → Result Bytes
store lz q [] disk = ok disk
store lz q (f ∷ fs) disk = and_then (store_frame lz q f disk) (store lz q fs)

-- The call is one that can be sent.
pub record CanWrite (d : NfcDisk) (start_sector num_sectors : ℕ) (bytes : Bytes) : Type 0 where
  pub some : 0 < num_sectors
  pub size : length bytes ≡ num_sectors * d.sector_size
  pub buffer : 0 < d.aio_buffer_size
  pub can_send : CanSend d.sock
  pub op_id_fits : IsU32 d.op_id
  pub handle_fits : d.handle < 2 ^ 64
  pub offset_fits : start_sector * d.sector_size < 2 ^ 64
  pub size_fits : IsU32 (length bytes)

take-drop_length : (n : ℕ) (xs : Bytes) → take n xs ++ drop (length (take n xs)) xs ≡ xs
take-drop_length zero xs = refl
take-drop_length (suc n) [] = refl
take-drop_length (suc n) (x ∷ xs) = ap (λ t. x ∷ t) (take-drop_length n xs)

-- The disk object after sending `frames`.
abbrev pub sending : List Bytes → NfcDisk → NfcDisk
sending frames d = record d { sock = record d.sock { sent = d.sock.sent ++ frames } }

module _ (lz : Codec) (law : IsLawful lz) (op_id disk_offset : ℕ) (bytes : Bytes) where
  abbrev pub Sends : ℕ → ℕ → NfcDisk → Type 0
  Sends fuel at d =
      (frames : List Bytes) × (write_loop lz fuel op_id disk_offset bytes at d
        ≡ (ok tt, sending frames d))
      × ((disk : Bytes)
          → disk_offset + length bytes ≤ length disk
          → store lz (expected d op_id (length bytes)) frames disk
            ≡ ok (blit (disk_offset + at) (drop at bytes) disk))
      × All (λ f. length f ≤ 60 + d.aio_buffer_size) frames

  write_loop_stop :
      (fuel at : ℕ) (d : NfcDisk)
      → length bytes ≤ at
      → write_loop lz fuel op_id disk_offset bytes at d ≡ (ok tt, d)
  unfolding write_loop
  write_loop_stop zero at d h = rw (le→ltb_false at (length bytes) h)
  write_loop_stop (suc fuel) at d h = rw (le→ltb_false at (length bytes) h)

  write_loop_round :
      (fuel at : ℕ) (d d' : NfcDisk)
      → at < length bytes
      → send_fragment lz op_id disk_offset
          (length bytes)
          at
          (take d.aio_buffer_size (drop at bytes))
          d
        ≡ (ok tt, d')
      → write_loop lz (suc fuel) op_id disk_offset bytes at d
        ≡ write_loop lz fuel op_id disk_offset bytes
            (at + length (take d.aio_buffer_size (drop at bytes)))
            d'
  unfolding write_loop
  write_loop_round fuel at d d' h e = rw (lt→ltb at (length bytes) h, e) refl

  write_loop_done : (fuel at : ℕ) (d : NfcDisk) → length bytes ≤ at → Sends fuel at d
  unfolding store
  write_loop_done fuel at d h = (
    [],
    write_loop_stop fuel at d h
        ∙ ap (λ (l : List Bytes). (ok tt, record d { sock = record d.sock { sent = l } }))
            (sym (append-nil d.sock.sent)),
    (λ disk room. rw (drop_all at bytes h, blit_nil) refl),
    tt,
  )

  -- The server's view of one fragment and then the others.
  store_step :
      (d : NfcDisk) (at : ℕ) (x : Extra) (frames : List Bytes) (disk : Bytes)
      → IsU32 op_id
      → Carries lz (take d.aio_buffer_size (drop at bytes)) x
      → at < length bytes
      → All Fits (
          fragment_fields d disk_offset
            (length bytes)
            at
            (length (take d.aio_buffer_size (drop at bytes)))
            x)
      → disk_offset + length bytes ≤ length disk
      → ((disk' : Bytes)
          → disk_offset + length bytes ≤ length disk'
          → store lz (expected d op_id (length bytes)) frames disk'
            ≡ ok (
                blit
                  (disk_offset + (at + length (take d.aio_buffer_size (drop at bytes))))
                  (drop (at + length (take d.aio_buffer_size (drop at bytes))) bytes)
                  disk'))
      → store lz
          (expected d op_id (length bytes))
          (fragment_frame d op_id disk_offset
              (length bytes)
              at
              (take d.aio_buffer_size (drop at bytes))
              x
            ∷ frames)
          disk
        ≡ ok (blit (disk_offset + at) (drop at bytes) disk)
  unfolding store
  store_step d at x frames disk ho car lt fits room later =
      let chunk : Bytes = take d.aio_buffer_size (drop at bytes) in
      let disk' : Bytes = blit (disk_offset + at) chunk disk in
      let lb : length disk' ≡ length disk = length-blit (disk_offset + at) chunk disk in
      let lc : length chunk ≡ min d.aio_buffer_size (length (drop at bytes)) =
        length-take d.aio_buffer_size (drop at bytes) in
      let ld : length (drop at bytes) ≡ length bytes - at = length-drop at bytes in
      let parts : chunk ++ drop (at + length chunk) bytes ≡ drop at bytes =
        rw (← drop-drop at (length chunk) bytes)
          (take-drop_length d.aio_buffer_size (drop at bytes)) in
      let one =
        store_frame_lem lz d op_id disk_offset (length bytes) at chunk x law car fits disk
          (omega arith) ho in
      let both =
        blit-blit (disk_offset + at) (disk_offset + (at + length chunk)) chunk
          (drop (at + length chunk) bytes) disk (omega arith) (omega arith) in
      rw one (
        later disk' (omega arith)
        ∙ ap ok (both ∙ ap (λ (t : Bytes). blit (disk_offset + at) t disk) parts))

  pub write_loop_lem :
      (fuel at : ℕ) (d : NfcDisk)
      → CanSend d.sock
      → IsU32 op_id
      → disk_offset < 2 ^ 64
      → IsU32 (length bytes)
      → d.handle < 2 ^ 64
      → 0 < d.aio_buffer_size
      → length bytes ≤ at + fuel
      → Sends fuel at d
  write_loop_lem zero at d can ho hd hl hh hb enough = write_loop_done zero at d (omega arith)
  write_loop_lem (suc fuel) at d can ho hd hl hh hb enough =
      elim (Bool-cases (ltb at (length bytes))) [
        | inr full ↦ write_loop_done (suc fuel) at d (ltb_false→le at (length bytes) full)
        | inl more ↦
            let lt : at < length bytes = ltb→lt at (length bytes) more in
            let chunk : Bytes = take d.aio_buffer_size (drop at bytes) in
            let lc : length chunk ≡ min d.aio_buffer_size (length (drop at bytes)) =
              length-take d.aio_buffer_size (drop at bytes) in
            let ld : length (drop at bytes) ≡ length bytes - at = length-drop at bytes in
            let (x, ex, car) = choose_extra_lem lz d.compression chunk law in
            let (lx, cx) = Carries-length lz chunk x car in
            let fits : All Fits (fragment_fields d disk_offset (length bytes) at (length chunk) x) =
              omega arith in
            let fr : Bytes = fragment_frame d op_id disk_offset (length bytes) at chunk x in
            let sent =
              send_fragment_lem lz d op_id disk_offset (length bytes) at chunk x can ho ex fits in
            let d1 : NfcDisk = sending (fr ∷ []) d in
            let (frames, e, stored, bound) =
              write_loop_lem fuel (at + length chunk) d1
                (record { is_open = can.is_open; no_faults = can.no_faults }) ho hd hl hh hb
                (omega arith) in
            (
              fr ∷ frames,
              write_loop_round fuel at d d1 lt sent
                  ∙ e
                  ∙ ap (λ (l : List Bytes). (ok tt, record d { sock = record d.sock { sent = l } }))
                      (append_assoc d.sock.sent (fr ∷ []) frames),
              (λ disk room. store_step d at x frames disk ho car lt fits room stored),
              (
                omega (arith, length-fragment_frame d op_id disk_offset (length bytes) at chunk x),
                bound,
              ),
            )
      ]
