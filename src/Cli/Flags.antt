-- ===== src/Cli/Flags.antt =====
-- The package `flag` of Go, for a set of Boolean flags as tools/arxveil/main.go uses it, with
-- `ContinueOnError`.
pub mod Confirmed
use arxveil.Prelude.{
  Bool, true, false, ◌||◌, Option, none, some, List, [], ◌∷◌, contains, nat_eq, text_eq, ◌==◌,
  if◌then◌else◌,
}
use arxveil.Go.Text.{Bytes, codes}
use arxveil.Cli.Errors.{
  Error, bad_flag_syntax, flag_not_defined, invalid_boolean, help_requested, Checked, good, bad,
}

-- The flags of a set with their values.
abbrev pub Values : Type 0
Values = List (Bytes × Bool)

abbrev pub is_defined : Bytes → Values → Bool
is_defined name [] = false
is_defined name ((n, _) ∷ values) = name == n || is_defined name values

abbrev pub value_of : Bytes → Values → Bool
value_of name [] = false
value_of name ((n, b) ∷ values) = if name == n then b else value_of name values

abbrev pub set : Bytes → Bool → Values → Values
set name b [] = []
set name b ((n, c) ∷ values) = (n, if name == n then b else c) ∷ set name b values

-- How `parseOne` reads an argument.
pub data Token : Type 0 where
  positional terminator ill_formed : Token
  named : Bytes → Option Bytes → Token

-- The text before the first `=`, and the text after it.
abbrev pub cut : Bytes → Bytes × Option Bytes
cut [] = ([], none)
cut (c ∷ cs) = if c == 61 then ([], some cs) else (c ∷ (cut cs).0, (cut cs).1)

-- A flag's name is not empty and starts with neither `-` nor `=`.
abbrev pub name_token : Bytes → Token
name_token [] = ill_formed
name_token (c ∷ cs) = if c == 45 || c == 61 then ill_formed else named (c ∷ (cut cs).0) (cut cs).1

abbrev pub after_dashes : Bytes → Token
after_dashes [] = terminator
after_dashes (c ∷ cs) = name_token (c ∷ cs)

unfoldable pub token : Bytes → Token
token [] = positional
token (c ∷ []) = positional
token (c ∷ d ∷ rest) =
    if c == 45 then (if d == 45 then after_dashes rest else name_token (d ∷ rest)) else positional

-- `strconv.ParseBool`
abbrev pub truths : List Bytes
truths = codes "1" ∷ codes "t" ∷ codes "T" ∷ codes "TRUE" ∷ codes "true" ∷ codes "True" ∷ []

abbrev pub falsehoods : List Bytes
falsehoods = codes "0" ∷ codes "f" ∷ codes "F" ∷ codes "FALSE" ∷ codes "false" ∷ codes "False" ∷ []

unfoldable pub parse_bool : Bytes → Option Bool
parse_bool s =
    if contains truths s then some true else if contains falsehoods s then some false else none

-- A flag without a value is set to true.
abbrev pub flag_value : Option Bytes → Option Bool
flag_value none = some true
flag_value (some s) = parse_bool s

abbrev pub text_or_empty : Option Bytes → Bytes
text_or_empty none = []
text_or_empty (some s) = s

abbrev pub undefined_flag : Bytes → Error
undefined_flag name =
    if name == codes "help" || name == codes "h" then help_requested else flag_not_defined name

-- `FlagSet.Parse`: the values, and the arguments that are left.
unfoldable pub parse : Values → List Bytes → Checked (Values × List Bytes)
parse values [] = good (values, [])
parse values (a ∷ rest) = elim (token a) [
  | positional ↦ good (values, a ∷ rest)
  | terminator ↦ good (values, rest)
  | ill_formed ↦ bad (bad_flag_syntax a)
  | named name text ↦ elim (is_defined name values) [
    | false ↦ bad (undefined_flag name)
    | true ↦ elim (flag_value text) [
      | none ↦ bad (invalid_boolean (text_or_empty text) name)
      | some b ↦ parse (set name b values) rest
    ]
  ]
]
