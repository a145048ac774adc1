-- ===== src/Handle/Options.antt =====
-- The choice of a transport in `VixDiskLibHandle.connect` (openvixdisklib/openvixdisklib.py).
use open_vix_disk_lib.Prelude.{
  ◌≡◌, refl, ap, ◌⊎◌, inl, inr, true, false, Option, none, some, List, [], ◌∷◌, ◌++◌, All,
  Bool-cases,
}
use open_vix_disk_lib.Error.{ok, err, not_implemented, transports}
use open_vix_disk_lib.Text.{Text, split, is_one_of}
use open_vix_disk_lib.Handle.{supported_modes, first_supported, selected, select_transport}

abbrev pub IsSupported : Text → Type 0
IsSupported mode = is_one_of mode supported_modes ≡ true

abbrev pub IsForeign : Text → Type 0
IsForeign mode = is_one_of mode supported_modes ≡ false

-- The first supported mode of a list, or none.
abbrev First : List Text → Option Text → Type 0
First modes x =
    ((mode : Text) × (front : List Text) × (back : List Text) × (modes ≡ front ++ (mode ∷ back))
      × IsSupported mode
      × All IsForeign front
      × (x ≡ some mode))
    ⊎ (All IsForeign modes × (x ≡ none))

first_supported-First : (modes : List Text) → First modes (first_supported modes)
unfolding first_supported
first_supported-First [] = inr (tt, refl)
first_supported-First (m ∷ ms) = elim (Bool-cases (is_one_of m supported_modes)) [
  | inl hit ↦ inl (m, [], ms, refl, hit, tt, rw hit refl)
  | inr miss ↦ elim (first_supported-First ms) [
    | inl (mode, front, back, e, s, f, x) ↦
        inl (mode, m ∷ front, back, ap (λ (t : List Text). m ∷ t) e, s, (miss, f), rw miss x)
    | inr (f, x) ↦ inr ((miss, f), rw miss x)
  ]
]

-- `_select_transport` with a list of transports either returns its first entry that is supported,
-- or, if no entry is, raises the error that names the list.
pub select_transport_lem :
    (modes : Text)
    → ((mode : Text) × (front : List Text) × (back : List Text) × (split b':' modes
          ≡ front ++ (mode ∷ back))
        × IsSupported mode
        × All IsForeign front
        × (select_transport (some modes) ≡ ok mode))
      ⊎ (All IsForeign (split b':' modes)
          × (select_transport (some modes) ≡ err (not_implemented (transports modes))))
unfolding select_transport selected
select_transport_lem modes = elim (first_supported-First (split b':' modes)) [
  | inl (mode, front, back, e, s, f, x) ↦ inl (mode, front, back, e, s, f, rw x refl)
  | inr (f, x) ↦ inr (f, rw x refl)
]
