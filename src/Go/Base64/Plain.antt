-- ===== src/Go/Base64/Plain.antt =====
-- An encoded text has no white space, so trimming leaves it as it is.
use mathlib.Core.List.{reverse-cons}
use arxveil.Prelude.{All-append, ℕ, ◌≤◌, ◌≡◌, refl, [], ◌∷◌, reverse, All, nat_eq, arith}
use arxveil.Go.Text.{
  Bytes, space_width, space_width_back, ascii_space, two_byte_space, three_byte_space,
}
use arxveil.Go.Text.Trim.{IsTrimmed}
use arxveil.Go.Base64.{symbol, encode}

-- An ASCII character from `-` to `z`.
abbrev IsPlain : ℕ → Type 0
IsPlain c = (45 ≤ c) × (c ≤ 122)

symbol-IsPlain : (v : ℕ) → IsPlain (symbol v)
unfolding symbol
symbol-IsPlain v = ground arith

encode-IsPlain : (s : Bytes) → All IsPlain (encode s)
unfolding encode
encode-IsPlain [] = tt
encode-IsPlain (a ∷ []) = (symbol-IsPlain _, (symbol-IsPlain _, tt))
encode-IsPlain (a ∷ b ∷ []) = (symbol-IsPlain _, (symbol-IsPlain _, (symbol-IsPlain _, tt)))
encode-IsPlain (a ∷ b ∷ c ∷ rest) = (
  symbol-IsPlain _,
  (symbol-IsPlain _, (symbol-IsPlain _, (symbol-IsPlain _, encode-IsPlain rest))),
)

front_of : (s : Bytes) → All IsPlain s → space_width s ≡ 0
unfolding space_width ascii_space two_byte_space three_byte_space
front_of [] h = refl
front_of (a ∷ []) h = ground arith
front_of (a ∷ b ∷ []) h = ground arith
front_of (a ∷ b ∷ c ∷ s) h = ground arith

back_of : (s : Bytes) → All IsPlain s → space_width_back s ≡ 0
unfolding space_width_back ascii_space two_byte_space three_byte_space
back_of [] h = refl
back_of (a ∷ []) h = ground arith
back_of (a ∷ b ∷ []) h = ground arith
back_of (a ∷ b ∷ c ∷ s) h = ground arith

All-reverse : (s : Bytes) → All IsPlain s → All IsPlain (reverse s)
All-reverse [] h = tt
All-reverse (x ∷ s) h =
    rw reverse-cons (All-append IsPlain (reverse s) (x ∷ []) (All-reverse s h.1) (h.0, tt))

pub encode-IsTrimmed : (s : Bytes) → IsTrimmed (encode s)
encode-IsTrimmed s = record {
  front = front_of (encode s) (encode-IsPlain s);
  back = back_of (reverse (encode s)) (All-reverse (encode s) (encode-IsPlain s));
}
