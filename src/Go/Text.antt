-- ===== src/Go/Text.antt =====
-- Go strings, which are sequences of bytes, and `strings.TrimSpace` on them.
-- `TrimSpace` removes leading and trailing runes for which `unicode.IsSpace` holds. A rune is read
-- from its UTF-8 encoding; no byte of an ill-formed sequence counts as space. The white space runes
-- are U+0009 to U+000D, U+0020, U+0085, U+00A0, U+1680, U+2000 to U+200A, U+2028, U+2029, U+202F,
-- U+205F and U+3000.
pub mod Trim
use Prim.Native.Char.{code}
use Prim.Native.String
use arxveil.Prelude.{
  ℕ, zero, suc, String, Bool, true, false, ◌&&◌, ◌||◌, List, [], ◌∷◌, reverse, leb, nat_eq, ◌==◌,
  if◌then◌else◌,
}

-- A Go `string`, or a `[]byte`, as its bytes.
abbrev pub Bytes : Type 0
Bytes = List ℕ

-- The bytes of an ASCII literal.
abbrev pub codes : String → Bytes
codes String.[] = []
codes (String.◌∷◌ c s) = code c ∷ codes s

unfoldable pub ascii_space : ℕ → Bool
ascii_space a = leb 9 a && leb a 13 || a == 32

unfoldable pub two_byte_space : ℕ → ℕ → Bool
two_byte_space a b = a == 0xc2 && (b == 0x85 || b == 0xa0)

unfoldable pub three_byte_space : ℕ → ℕ → ℕ → Bool
three_byte_space a b c =
    a == 0xe1 && (b == 0x9a && c == 0x80)
    || a == 0xe2
      && (b == 0x80 && (leb 0x80 c && leb c 0x8a || (c == 0xa8 || c == 0xa9) || c == 0xaf))
    || a == 0xe2 && (b == 0x81 && c == 0x9f)
    || a == 0xe3 && (b == 0x80 && c == 0x80)

-- How many bytes the white space rune at the front takes, 0 if there is none.
unfoldable pub space_width : Bytes → ℕ
space_width [] = 0
space_width (a ∷ []) = if ascii_space a then 1 else 0
space_width (a ∷ b ∷ []) = if ascii_space a then 1 else if two_byte_space a b then 2 else 0
space_width (a ∷ b ∷ c ∷ _) =
    if ascii_space a
    then 1
    else if two_byte_space a b
    then 2
    else if three_byte_space a b c
    then 3
    else 0

-- The same at the end, read from the reversed bytes.
unfoldable pub space_width_back : Bytes → ℕ
space_width_back [] = 0
space_width_back (a ∷ []) = if ascii_space a then 1 else 0
space_width_back (a ∷ b ∷ []) = if ascii_space a then 1 else if two_byte_space b a then 2 else 0
space_width_back (a ∷ b ∷ c ∷ _) =
    if ascii_space a
    then 1
    else if two_byte_space b a
    then 2
    else if three_byte_space c b a
    then 3
    else 0

-- Strips white space runes off the front, as `width` finds them. The number counts the bytes that
-- are still to be dropped of a rune that has been found.
unfoldable pub strip : (Bytes → ℕ) → ℕ → Bytes → Bytes
strip width n [] = []
strip width (suc n) (x ∷ xs) = strip width n xs
strip width zero (x ∷ xs) = elim (width (x ∷ xs)) [ zero ↦ x ∷ xs | suc w ↦ strip width w xs ]

unfoldable pub trim_left : Bytes → Bytes
unfolding strip space_width ascii_space two_byte_space three_byte_space
trim_left s = strip space_width 0 s

unfoldable pub trim_right : Bytes → Bytes
unfolding strip space_width_back ascii_space two_byte_space three_byte_space
trim_right s = reverse (strip space_width_back 0 (reverse s))

-- `strings.TrimSpace`
unfoldable pub trim_space : Bytes → Bytes
unfolding trim_left trim_right
trim_space s = trim_right (trim_left s)
