-- ===== src/Go/Float64.antt =====
-- `float64` as its IEEE 754 bit pattern, with the operations that the validation uses.
use arxveil.Prelude.{
  ℕ, ◌-◌, ◌/◌, ◌%◌, ◌^◌, ◌≡◌, refl, Bool, true, ◌&&◌, not, nat_eq, ◌==◌, ltb, if◌then◌else◌,
}
use arxveil.Prelude.Int.{ℤ, pos, negsuc, ltb_ℤ}

-- One sign bit, 11 bits of exponent, 52 bits of fraction.
abbrev pub Float64 : Type 0
Float64 = ℕ

abbrev pub infinity : ℕ
infinity = 0x7ff0000000000000

-- The pattern without its sign bit. Patterns of one sign are ordered as the numbers they stand for.
abbrev pub magnitude : Float64 → ℕ
magnitude f = f % 2 ^ 63

abbrev pub is_negative : Float64 → Bool
is_negative f = (f / 2 ^ 63) % 2 == 1

-- `math.IsNaN`
abbrev pub is_nan : Float64 → Bool
is_nan f = ltb infinity (magnitude f)

-- `math.IsInf(f, 0)`
abbrev pub is_inf : Float64 → Bool
is_inf f = magnitude f == infinity

-- An integer that is ordered as the numbers are; both zeros have 0.
abbrev pub order_key : Float64 → ℤ
order_key f =
    if is_negative f
    then (if magnitude f == 0 then pos 0 else negsuc (magnitude f - 1))
    else pos (magnitude f)

-- `a < b`, which is false where an operand is NaN.
abbrev pub lt : Float64 → Float64 → Bool
lt a b = not (is_nan a) && not (is_nan b) && ltb_ℤ (order_key a) (order_key b)

-- 0.0, 42.5 and 100.0
abbrev pub f0 : Float64
f0 = 0

abbrev pub f42_5 : Float64
f42_5 = 0x4045400000000000

abbrev pub f100 : Float64
f100 = 0x4059000000000000

ordered :
    (lt f0 f42_5 && lt f42_5 f100 && not (lt f100 f42_5) && not (lt 0x8000000000000000 f0)) ≡ true
ordered = refl
