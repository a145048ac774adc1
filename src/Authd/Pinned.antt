-- ===== src/Authd/Pinned.antt =====
-- What text stands for a thumbprint, and what `_normalize_thumbprint` (openvixdisklib/nfc_auth.py) makes
-- of it.
use open_vix_disk_lib.Prelude.{
  ℕ, ◌+◌, ◌/◌, ◌%◌, ◌≤◌, ◌<◌, ◌≡◌, ◌≢◌, refl, sym, ◌∙◌, ◌⊎◌, inl, inr, false, List, [], ◌∷◌, arith,
  ltb, ◌==◌, All, map, text_eq_iff, Bool-cases,
}
use open_vix_disk_lib.Error.{ok}
use open_vix_disk_lib.Struct.{Bytes}
use open_vix_disk_lib.Text.{Text, join, remove_char, upper, upper_char}
use open_vix_disk_lib.Thumbprint.{
  hex_digit, format_thumbprint, sha1_thumbprint, normalize_thumbprint,
}
use open_vix_disk_lib.Authd.{check_thumbprint}

-- The character with that code is the hexadecimal digit `v`, in either case.
abbrev pub IsHex : ℕ → ℕ → Type 0
IsHex c v =
    ((v < 10) × (c ≡ b'0' + v))
    ⊎ ((10 ≤ v) × (v < 16) × (c + 10 ≡ b'A' + v))
    ⊎ ((10 ≤ v) × (v < 16) × (c + 10 ≡ b'a' + v))

-- The half bytes of a digest.
abbrev pub halves : Bytes → List ℕ
halves [] = []
halves (b ∷ bs) = b / 16 ∷ b % 16 ∷ halves bs

-- A text spells half bytes by hexadecimal digits, with colons and spaces anywhere.
pub data Spells : Text → List ℕ → Type 0 where
  nothing : Spells [] []
  separator :
      {c : ℕ} {s : Text} {ns : List ℕ} → (c ≡ b':') ⊎ (c ≡ b' ') → Spells s ns → Spells (c ∷ s) ns
  digit : {c v : ℕ} {s : Text} {ns : List ℕ} → IsHex c v → Spells s ns → Spells (c ∷ s) (v ∷ ns)

hex_digit-IsHex : (v : ℕ) → v < 16 → IsHex (hex_digit v) v
hex_digit-IsHex v h = elim (Bool-cases (ltb v 10)) [
  | inl small ↦ rw small (inl (ground arith, refl))
  | inr large ↦ rw large (inr (inl (ground arith, h, ground arith)))
]

IsHex-kept :
    (c v : ℕ)
    → IsHex c v
    → ((c == b':') ≡ false) × ((c == b' ') ≡ false) × (upper_char c ≡ hex_digit v) × (v < 16)
IsHex-kept c v (inl h) = (ground arith, ground arith, ground arith, omega arith)
IsHex-kept c v (inr (inl h)) = (ground arith, ground arith, ground arith, omega arith)
IsHex-kept c v (inr (inr h)) = (ground arith, ground arith, ground arith, omega arith)

-- The normal form of a text that spells half bytes: their digits in upper case.
normalize-Spells :
    {s : Text} {ns : List ℕ}
    → Spells s ns
    → (normalize_thumbprint s ≡ map hex_digit ns) × All (λ v. v < 16) ns
unfolding normalize_thumbprint remove_char upper
normalize-Spells nothing = (refl, tt)
normalize-Spells (separator (inl e) more) = rw e (normalize-Spells more)
normalize-Spells (separator (inr e) more) = rw e (normalize-Spells more)
normalize-Spells (digit {c} {v} h more) =
    let (colon, space, digit_of, small) = IsHex-kept c v h in
    let (rest, all) = normalize-Spells more in
    (rw (colon, space, digit_of, rest) refl, (small, all))

format-Spells :
    (digest : Bytes)
    → All (λ v. v < 16) (halves digest)
    → Spells (format_thumbprint digest) (halves digest)
unfolding format_thumbprint join
format-Spells [] small = nothing
format-Spells (b ∷ []) (high, (low, _)) =
    digit (hex_digit-IsHex (b / 16) high) (digit (hex_digit-IsHex (b % 16) low) nothing)
format-Spells (b ∷ c ∷ bs) (high, (low, more)) =
    digit (hex_digit-IsHex (b / 16) high)
      (digit (hex_digit-IsHex (b % 16) low) (separator (inl refl) (format-Spells (c ∷ bs) more)))

-- A text that spells the digest of a certificate passes the check.
pub check_thumbprint-Spells :
    (sha1 : Bytes → Bytes) (cert : Bytes) (t : Text)
    → cert ≢ []
    → Spells t (halves (sha1 cert))
    → check_thumbprint sha1 cert t ≡ ok tt
unfolding check_thumbprint sha1_thumbprint
check_thumbprint-Spells sha1 [] t some_ spelt = absurd (some_ refl)
check_thumbprint-Spells sha1 (b ∷ bs) t some_ spelt =
    let (theirs, small) = normalize-Spells spelt in
    let ours = (normalize-Spells (format-Spells (sha1 (b ∷ bs)) small)).0 in
    let equal = (text_eq_iff _ _).1 (ours ∙ sym theirs) in rw equal refl
