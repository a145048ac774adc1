-- ===== src/Text.antt =====
-- Python's `str` as code points: the methods that the package uses. Case mapping is that of ASCII,
-- which is all that the package's texts need it for: the word `moref`, and hexadecimal digits.
use open_vix_disk_lib.Prelude.{
  ℕ, ◌+◌, ◌-◌, ◌/◌, ◌%◌, Bool, true, false, ◌||◌, ◌&&◌, Option, none, some, List, [], ◌∷◌, ◌++◌,
  ltb, leb, ◌==◌, length, drop, text_eq, if◌then◌else◌,
}
use open_vix_disk_lib.Error.{Result, ok, err, and_then, value_error, not_encodable}
use open_vix_disk_lib.Struct.{Bytes}

abbrev pub Text : Type 0
Text = List ℕ

-- `s.encode("ascii")`
unfoldable pub encode_ascii : Text → Result Bytes
encode_ascii [] = ok []
encode_ascii (c ∷ s) =
    if ltb c 128
    then and_then (encode_ascii s) (λ bs. ok (c ∷ bs))
    else err (value_error not_encodable)

-- The bytes of one code point; a surrogate has none.
unfoldable pub utf8_char : ℕ → Result Bytes
utf8_char c =
    if ltb c 0x80
    then ok (c ∷ [])
    else if ltb c 0x800
    then ok ((0xc0 + c / 0x40) ∷ (0x80 + c % 0x40) ∷ [])
    else if leb 0xd800 c && leb c 0xdfff
    then err (value_error not_encodable)
    else if ltb c 0x10000
    then ok ((0xe0 + c / 0x1000) ∷ (0x80 + c / 0x40 % 0x40) ∷ (0x80 + c % 0x40) ∷ [])
    else ok (
        (0xf0 + c / 0x40000)
        ∷ (0x80 + c / 0x1000 % 0x40)
        ∷ (0x80 + c / 0x40 % 0x40)
        ∷ (0x80 + c % 0x40)
        ∷ [])

-- `s.encode("utf-8")`
unfoldable pub encode_utf8 : Text → Result Bytes
unfolding utf8_char
encode_utf8 [] = ok []
encode_utf8 (c ∷ s) =
    and_then (utf8_char c) λ front. and_then (encode_utf8 s) λ rest. ok (front ++ rest)

-- `bs.decode("ascii", "replace")`
unfoldable pub decode_ascii : Bytes → Text
decode_ascii [] = []
decode_ascii (b ∷ bs) = (if ltb b 128 then b else 0xfffd) ∷ decode_ascii bs

-- `s.startswith(prefix)`
unfoldable pub starts_with : Text → Text → Bool
starts_with s [] = true
starts_with [] (p ∷ ps) = false
starts_with (c ∷ s) (p ∷ ps) = (c == p) && starts_with s ps

-- `s.endswith(suffix)`
unfoldable pub ends_with : Text → Text → Bool
ends_with s suffix =
    leb (length suffix) (length s) && text_eq (drop (length s - length suffix) s) suffix

-- `s.lstrip()`, for the white space of ASCII text.
abbrev pub is_space : ℕ → Bool
is_space c = (leb 9 c && leb c 13) || (leb 28 c && leb c 32)

unfoldable pub lstrip : Text → Text
lstrip [] = []
lstrip (c ∷ s) = let rest = lstrip s in if is_space c then rest else c ∷ s

-- `s.rstrip("\r\n")`
abbrev pub is_eol : ℕ → Bool
is_eol c = (c == 10) || (c == 13)

keep_unless_eol : ℕ → Text → Text
keep_unless_eol c [] = if is_eol c then [] else c ∷ []
keep_unless_eol c (x ∷ xs) = c ∷ x ∷ xs

unfoldable pub rstrip_eol : Text → Text
unfolding keep_unless_eol
rstrip_eol [] = []
rstrip_eol (c ∷ s) = keep_unless_eol c (rstrip_eol s)

abbrev pub upper_char : ℕ → ℕ
upper_char c = if leb b'a' c && leb c b'z' then c - 32 else c

abbrev pub lower_char : ℕ → ℕ
lower_char c = if leb b'A' c && leb c b'Z' then c + 32 else c

unfoldable pub upper : Text → Text
upper [] = []
upper (c ∷ s) = upper_char c ∷ upper s

unfoldable pub lower : Text → Text
lower [] = []
lower (c ∷ s) = lower_char c ∷ lower s

-- `s.replace(c, "")` for a single character.
unfoldable pub remove_char : ℕ → Text → Text
remove_char x [] = []
remove_char x (c ∷ s) = let rest = remove_char x s in if c == x then rest else c ∷ rest

-- `s.split(sep)`: the part before the first separator, and the others.
add_to_first : ℕ → List Text → List Text
add_to_first c [] = (c ∷ []) ∷ []
add_to_first c (w ∷ ws) = (c ∷ w) ∷ ws

unfoldable pub split : ℕ → Text → List Text
unfolding add_to_first
split sep [] = [] ∷ []
split sep (c ∷ s) = if c == sep then [] ∷ split sep s else add_to_first c (split sep s)

-- `s.split(sep, 1)` where `sep in s`: what is before and behind the first separator.
unfoldable pub split_once : ℕ → Text → Option (Text × Text)
split_once sep [] = none
split_once sep (c ∷ s) =
    let rest : Option (Text × Text) = elim (split_once sep s) [
      | none ↦ none
      | some (a, b) ↦ some (c ∷ a, b)
    ] in
    if c == sep then some ([], s) else rest

-- `s1 in (t1, t2, ...)`
unfoldable pub is_one_of : Text → List Text → Bool
is_one_of s [] = false
is_one_of s (t ∷ ts) = text_eq s t || is_one_of s ts

-- `sep.join(words)`
unfoldable pub join : Text → List Text → Text
join sep [] = []
join sep (w ∷ []) = w
join sep (w ∷ v ∷ ws) = w ++ (sep ++ join sep (v ∷ ws))
