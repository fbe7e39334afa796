-- ===== src/Go/Base64/Decode.antt =====
-- The encoding can be undone, so two different secrets have different encodings.
use arxveil.Prelude.{
  ℕ, ◌+◌, ◌-◌, ◌*◌, ◌/◌, ◌%◌, ◌<◌, ◌≡◌, refl, sym, ap, ◌∙◌, [], ◌∷◌, All, length, nat_eq, ◌==◌, ltb,
  if◌then◌else◌, arith,
}
use arxveil.Go.Text.{Bytes}
use arxveil.Go.Base64.{symbol, encode}

-- The 6-bit group of a character.
value : ℕ → ℕ
value c =
    if ltb c 46
    then 62
    else if ltb c 58
    then c + 4
    else if ltb c 91
    then c - 65
    else if c == 95
    then 63
    else c - 71

value-symbol : (v : ℕ) → v < 64 → value (symbol v) ≡ v
unfolding value symbol
value-symbol v h = ground arith

pub decode : Bytes → Bytes
decode [] = []
decode (_ ∷ []) = []
decode (p ∷ q ∷ []) = (value p * 4 + value q / 16) ∷ []
decode (p ∷ q ∷ r ∷ []) = (value p * 4 + value q / 16) ∷ (value q % 16 * 16 + value r / 4) ∷ []
decode (p ∷ q ∷ r ∷ s ∷ rest) =
    (value p * 4 + value q / 16)
    ∷ (value q % 16 * 16 + value r / 4)
    ∷ (value r % 4 * 64 + value s)
    ∷ decode rest

-- Every element is a byte.
abbrev pub IsBytes : Bytes → Type 0
IsBytes = All (λ b. b < 256)

pub decode-encode : (s : Bytes) → IsBytes s → decode (encode s) ≡ s
unfolding decode encode
decode-encode [] h = refl
decode-encode (a ∷ []) h = ground (arith, value-symbol (a / 4), value-symbol (a % 4 * 16))
decode-encode (a ∷ b ∷ []) h =
    ground
      (arith, value-symbol (a / 4), value-symbol (a % 4 * 16 + b / 16), value-symbol (b % 16 * 4))
decode-encode (a ∷ b ∷ c ∷ rest) h = ground (
  arith,
  value-symbol (a / 4),
  value-symbol (a % 4 * 16 + b / 16),
  value-symbol (b % 16 * 4 + c / 64),
  value-symbol (c % 64),
  decode-encode rest h.1.1.1,
)

pub encode-injective : (s t : Bytes) → IsBytes s → IsBytes t → encode s ≡ encode t → s ≡ t
encode-injective s t hs ht e = sym (decode-encode s hs) ∙ ap decode e ∙ decode-encode t ht

-- `EncodedLen`: four characters for three bytes, and no padding.
pub length-encode : (s : Bytes) → length (encode s) ≡ (4 * length s + 2) / 3
unfolding encode
length-encode [] = omega arith
length-encode (a ∷ []) = omega arith
length-encode (a ∷ b ∷ []) = omega arith
length-encode (a ∷ b ∷ c ∷ rest) = omega (arith, length-encode rest)
