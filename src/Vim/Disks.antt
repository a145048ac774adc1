-- ===== src/Vim/Disks.antt =====
-- `_virtual_disk_key` (openvixdisklib/nfc_auth.py): the devices of a machine and the chains of their
-- backings.
use open_vix_disk_lib.Prelude.{
  ◌↔◌, text_eq_iff, ℕ, ◌≡◌, refl, inl, inr, true, Option, none, some, List, [], ◌∷◌, Bool-cases,
  text_eq,
}
use open_vix_disk_lib.Error.{ok}
use open_vix_disk_lib.Text.{Text}
use open_vix_disk_lib.World.{Backing, no_backing, backing, Device, virtual_disk, other_device}
use open_vix_disk_lib.Vim.{in_chain, find_disk, attached, virtual_disk_key}

-- The file `path` is the file of the backing, or of one of its parents.
pub data InChain (path : Text) : Backing → Type 0 where
  here : {name : Text} {parent : Backing} → name ≡ path → InChain path (backing (some name) parent)
  parent : {name : Option Text} {b : Backing} → InChain path b → InChain path (backing name b)

-- The first of the devices that has `path` in its chain is the disk with that key.
pub data FirstDisk (path : Text) (key : ℕ) : List Device → Type 0 where
  found :
      {b : Backing} {ds : List Device}
      → InChain path b
      → FirstDisk path key (virtual_disk key b ∷ ds)
  passed :
      {k : ℕ} {b : Backing} {ds : List Device}
      → ¬ InChain path b
      → FirstDisk path key ds
      → FirstDisk path key (virtual_disk k b ∷ ds)
  skipped : {ds : List Device} → FirstDisk path key ds → FirstDisk path key (other_device ∷ ds)

InChain-of : (path : Text) (b : Backing) → in_chain path b ≡ true → InChain path b
unfolding in_chain
InChain-of path no_backing h = absurd (cc)
InChain-of path (backing none up) h = parent (InChain-of path up h)
InChain-of path (backing (some name) up) h = elim (Bool-cases (text_eq name path)) [
  | inl same ↦ here ((text_eq_iff name path).0 same)
  | inr other ↦ parent (InChain-of path up (rw other at h))
]

in_chain-of : (path : Text) (b : Backing) → InChain path b → in_chain path b ≡ true
unfolding in_chain
in_chain-of path no_backing p = elim p [ ]
in_chain-of path (backing (some name) up) (here same) = rw ((text_eq_iff name path).1 same) refl
in_chain-of path (backing none up) (parent p) = in_chain-of path up p
in_chain-of path (backing (some name) up) (parent p) = elim (Bool-cases (text_eq name path)) [
  | inl same ↦ rw same refl
  | inr other ↦ rw (other, in_chain-of path up p) refl
]

find_disk_sound :
    (path : Text) (ds : List Device) (key : ℕ)
    → find_disk path ds ≡ some key
    → FirstDisk path key ds
unfolding find_disk
find_disk_sound path [] key h = absurd (cc)
find_disk_sound path (other_device ∷ ds) key h = skipped (find_disk_sound path ds key h)
find_disk_sound path (virtual_disk k b ∷ ds) key h = elim (Bool-cases (in_chain path b)) [
  | inl hit ↦
      let h' : Path (Option ℕ) (some k) (some key) = rw hit at h in
      let same : k ≡ key = cc in rw same (found (InChain-of path b hit))
  | inr miss ↦ passed (λ p. cc (in_chain-of path b p)) (find_disk_sound path ds key (rw miss at h))
]

find_disk_complete :
    (path : Text) (ds : List Device) (key : ℕ)
    → FirstDisk path key ds
    → find_disk path ds ≡ some key
unfolding find_disk
find_disk_complete path [] key p = elim p [ ]
find_disk_complete path (other_device ∷ ds) key (skipped p) = find_disk_complete path ds key p
find_disk_complete path (virtual_disk k b ∷ ds) key (found p) = rw (in_chain-of path b p) refl
find_disk_complete path (virtual_disk k b ∷ ds) key (passed miss p) =
    elim (Bool-cases (in_chain path b)) [
      | inl hit ↦ absurd (miss (InChain-of path b hit))
      | inr out ↦ rw out (find_disk_complete path ds key p)
    ]

attached-eq-ok : (path : Text) (x : Option ℕ) (key : ℕ) → attached path x ≡ ok key → x ≡ some key
unfolding attached
attached-eq-ok path none key h = absurd (cc)
attached-eq-ok path (some k) key h = cc

-- `_virtual_disk_key` returns a key exactly if it is the key of the first virtual disk among the
-- devices whose backing, or one of whose backing's parents, has the file name.
pub virtual_disk_key-FirstDisk :
    (devices : List Device) (path : Text) (key : ℕ)
    → (virtual_disk_key devices path ≡ ok key) ↔ FirstDisk path key devices
unfolding virtual_disk_key
virtual_disk_key-FirstDisk devices path key = (
  (λ h. find_disk_sound path devices key (attached-eq-ok path (find_disk path devices) key h)),
  (λ p. rw (find_disk_complete path devices key p) (unfold attached in refl)),
)
