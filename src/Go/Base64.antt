-- ===== src/Go/Base64.antt =====
-- `base64.RawURLEncoding` of encoding/base64: the URL alphabet without padding.
pub mod Decode
pub mod Plain
use arxveil.Prelude.{
  ℕ, ◌+◌, ◌-◌, ◌*◌, ◌/◌, ◌%◌, ◌≡◌, refl, List, [], ◌∷◌, nat_eq, ◌==◌, ltb, if◌then◌else◌,
}
use arxveil.Go.Text.{Bytes, codes}

-- The character of a 6-bit group: A-Z, a-z, 0-9, - and _.
unfoldable pub symbol : ℕ → ℕ
symbol v =
    if ltb v 26
    then v + 65
    else if ltb v 52
    then v + 71
    else if ltb v 62
    then v - 4
    else if v == 62
    then 45
    else 95

-- `EncodeToString`
unfoldable pub encode : Bytes → Bytes
encode [] = []
encode (a ∷ []) = symbol (a / 4) ∷ symbol (a % 4 * 16) ∷ []
encode (a ∷ b ∷ []) = symbol (a / 4) ∷ symbol (a % 4 * 16 + b / 16) ∷ symbol (b % 16 * 4) ∷ []
encode (a ∷ b ∷ c ∷ rest) =
    symbol (a / 4)
    ∷ symbol (a % 4 * 16 + b / 16)
    ∷ symbol (b % 16 * 4 + c / 64)
    ∷ symbol (c % 64)
    ∷ encode rest

encode_example : encode (codes "many") ≡ codes "bWFueQ"
unfolding encode symbol
encode_example = refl

encode_url_symbols : encode (0xfb ∷ 0xef ∷ 0xff ∷ []) ≡ codes "--__"
unfolding encode symbol
encode_url_symbols = refl
