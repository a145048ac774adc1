-- ===== src/Life/Device.antt =====
-- Any sequence of `read` and `write` calls of one disk (openvixdisklib/nfc_open.py), against a block
-- device: a list of bytes that a write changes in place and a read cuts from.
pub mod Answered
pub mod Steps
pub mod Reads
pub mod Writes
pub mod Refines
use open_vix_disk_lib.Prelude.{
  ℕ, ◌+◌, ◌*◌, ◌^◌, ◌≤◌, ◌<◌, ◌≡◌, refl, sym, ap, ◌∙◌, subst, inl, inr, false, true, ◌⊎◌, not,
  Option, none, some, List, [], ◌∷◌, ◌++◌, append-nil, arith, ltb, ◌==◌, ==_iff, length,
  length-take, length-drop, take, drop, blit, length-blit, All, replicate, length-replicate,
  if◌then◌else◌, Bool-cases, ltb_false→le, le→ltb_false, min,
}
use open_vix_disk_lib.Error.{Error, Result, ok, err, value_error, no_sectors, write_length}
use open_vix_disk_lib.Struct.{Bytes}
use open_vix_disk_lib.Struct.Laws.{Fits}
use open_vix_disk_lib.Conn.{Conn}
use open_vix_disk_lib.Conn.Receive.{Delivers}
use open_vix_disk_lib.Conn.Send.{CanSend}
use open_vix_disk_lib.Fastlz.{Codec, IsLawful}
use open_vix_disk_lib.AioMsg
use open_vix_disk_lib.Aio.{NfcDisk}
use open_vix_disk_lib.Aio.Frames.{IsU32, frame}
use open_vix_disk_lib.Read.Fragment.{Buffer}
use open_vix_disk_lib.Read.{read, readinto}
use open_vix_disk_lib.Read.Replies.{Reply}
use open_vix_disk_lib.Read.Reassembly.{
  replies, Accepted, CanRead, request_fields, request, readinto-replies,
}
use open_vix_disk_lib.Read.Asked.{server_read}
use open_vix_disk_lib.Read.Contents.{IsPartition, placed_whole}
use open_vix_disk_lib.Write.{write}
use open_vix_disk_lib.Write.Fragments.{expected}
use open_vix_disk_lib.Write.Sent.{CanWrite, store}
use open_vix_disk_lib.Write.Whole.{write_stores}

-- A call of the client, with its arguments.
pub data Op : Type 0 where
  read_sectors : (start_sector num_sectors : ℕ) → Op
  write_sectors : (start_sector num_sectors : ℕ) (bytes : Bytes) → Op

-- The block device, for sectors of `size` bytes: what it refuses, what it does, and a run.
abbrev pub rejection : ℕ → Op → Option Error
rejection size (read_sectors s n) = if ltb n 1 then some (value_error no_sectors) else none
rejection size (write_sectors s n bytes) =
    if ltb n 1
    then some (value_error no_sectors)
    else if not (length bytes == n * size)
    then some (value_error (write_length (length bytes) (n * size)))
    else none

abbrev pub effect : ℕ → Op → Bytes → Result Bytes × Bytes
effect size (read_sectors s n) disk = (ok (take (n * size) (drop (s * size) disk)), disk)
effect size (write_sectors s n bytes) disk = (ok [], blit (s * size) bytes disk)

abbrev pub device_step : ℕ → Op → Bytes → Result Bytes × Bytes
device_step size op disk = elim (rejection size op) [
  | some e ↦ (err e, disk)
  | none ↦ effect size op disk
]

unfoldable pub device_run : ℕ → List Op → Bytes → List (Result Bytes) × Bytes
device_run size [] disk = ([], disk)
device_run size (op ∷ ops) disk =
    let (r, disk') = device_step size op disk in
    let (rs, disk'') = device_run size ops disk' in (r ∷ rs, disk'')

-- The same call of the program, and one call after the other; a `write` returns no bytes.
unfoldable pub written : Result (Unit {0}) × NfcDisk → Result Bytes × NfcDisk
written (ok _, d) = (ok [], d)
written (err e, d) = (err e, d)

module _ (lz : Codec) where
  unfoldable pub perform : Op → NfcDisk → Result Bytes × NfcDisk
  unfolding written
  perform (read_sectors s n) d = read lz s n d
  perform (write_sectors s n bytes) d = written (write lz s n bytes d)

  unfoldable pub run : List Op → NfcDisk → List (Result Bytes) × NfcDisk
  run [] d = ([], d)
  run (op ∷ ops) d = let (r, d') = perform op d in let (rs, d'') = run ops d' in (r ∷ rs, d'')

  -- The server's part: if the frame of a read is a request that it takes, it answers with fragments
  -- that it cuts from its disk at the offset and with the length asked for; a write it acknowledges,
  -- and if it takes the frames that were sent, it has stored them; `final` is its disk at the end. What
  -- it does with what it does not take is left open.
  abbrev pub Serves : List Op → NfcDisk → Bytes → Bytes → Bytes → Type 0
  Serves [] d disk stream final = disk ≡ final
  Serves (read_sectors s n ∷ ops) d disk stream final =
      elim (rejection d.sector_size (read_sectors s n)) [
        | some e ↦ Serves ops d disk stream final
        | none ↦
            (asked : Bytes) (offset len : ℕ)
            → (read lz s n d).1.sock.sent ≡ d.sock.sent ++ (asked ∷ [])
            → server_read d.handle d.op_id asked ≡ ok (offset, len)
            → (fs : List Reply) × (ys : Bytes) × (stream ≡ replies d.op_id fs ++ ys)
              × Accepted lz len [] fs
              × IsPartition (take len (drop offset disk)) fs
              × Serves ops (read lz s n d).1 disk ys final
      ]
  Serves (write_sectors s n bytes ∷ ops) d disk stream final =
      elim (rejection d.sector_size (write_sectors s n bytes)) [
        | some e ↦ Serves ops d disk stream final
        | none ↦
            (body ys : Bytes) × (stream ≡ frame AioMsg.io d.op_id body ys)
            × IsU32 (length body)
            × ((frames : List Bytes) (disk' : Bytes)
                → (write lz s n bytes d).1.sock.sent ≡ d.sock.sent ++ frames
                → store lz (expected d d.op_id (length bytes)) frames disk ≡ ok disk'
                → Serves ops (write lz s n bytes d).1 disk' ys final)
      ]

-- What a call that the device admits needs for its numbers to fit, on a device of `room` bytes.
abbrev pub Fitting : NfcDisk → ℕ → Op → Type 0
Fitting d room (read_sectors s n) =
    (s * d.sector_size + n * d.sector_size ≤ room)
    × All Fits (request_fields d s (n * d.sector_size))
Fitting d room (write_sectors s n bytes) =
    (s * d.sector_size + length bytes ≤ room) × (s * d.sector_size < 2 ^ 64) × IsU32 (length bytes)

pub record CanRun (d : NfcDisk) (ops : List Op) (room : ℕ) : Type 0 where
  pub can_send : CanSend d.sock
  pub op_ids_fit : IsU32 (d.op_id + length ops)
  pub handle_fits : d.handle < 2 ^ 64
  pub buffer : 0 < d.aio_buffer_size
  pub fitting : All (λ op. rejection d.sector_size op ≡ none → Fitting d room op) ops
