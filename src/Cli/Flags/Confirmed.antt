-- ===== src/Cli/Flags/Confirmed.antt =====
-- A flag that is true after parsing was set by an argument.
use arxveil.Prelude.{
  ◌≡◌, refl, sym, ◌∙◌, Bool, true, false, ◌&&◌, Option, none, some, List, [], ◌∷◌, any, nat_eq,
  text_eq, ◌==◌, Bool-cases, inl, inr, arith,
}
use arxveil.Go.Text.{Bytes}
use arxveil.Cli.Errors.{good}
use arxveil.Cli.Flags.{
  Values, is_defined, value_of, set, Token, positional, terminator, ill_formed, named, token,
  flag_value, parse,
}

abbrev pub is_true : Option Bool → Bool
is_true none = false
is_true (some b) = b

abbrev pub token_confirms : Bytes → Token → Bool
token_confirms name (named n text) = n == name && is_true (flag_value text)
token_confirms name _ = false

-- The argument sets the flag to true: `-name`, `--name`, or one of these with `=` and a text for true.
abbrev pub confirms : Bytes → Bytes → Bool
confirms name argument = token_confirms name (token argument)

value_of-set :
    (name n : Bytes) (b : Bool) (values : Values)
    → value_of name values ≡ false
    → value_of name (set n b values) ≡ true
    → ((n == name) ≡ true) × (b ≡ true)
value_of-set name n b [] h q = cc
value_of-set name n b ((m, c) ∷ values) h q = ground (
  arith,
  h,
  q,
  text_eq.beq_iff n m,
  text_eq.beq_iff name m,
  text_eq.beq_iff n name,
  value_of-set name n b values,
)

parse_next :
    (values : Values) (a : Bytes) (arguments : List Bytes) {n : Bytes} {text : Option Bytes}
    {b : Bool}
    → token a ≡ named n text
    → is_defined n values ≡ true
    → flag_value text ≡ some b
    → parse values (a ∷ arguments) ≡ parse (set n b values) arguments
unfolding parse
parse_next values a arguments e e1 e2 = rw (e, e1, e2, parse)

pub parse-confirms :
    (name : Bytes) (values : Values) (arguments : List Bytes) {after : Values} {rest : List Bytes}
    → value_of name values ≡ false
    → parse values arguments ≡ good (after, rest)
    → value_of name after ≡ true
    → any (confirms name) arguments ≡ true
unfolding parse
parse-confirms name values [] h q is_set = ground (arith, h, q, is_set)
parse-confirms name values (a ∷ arguments) {after} {rest} h q is_set =
    go (token a) refl (λ now n. parse-confirms name now arguments {after = after} {rest = rest} n)
  where
    go_named :
        (n : Bytes) (text : Option Bytes)
        → token a ≡ named n text
        → ((now : Values)
            → value_of name now ≡ false
            → parse now arguments ≡ good (after, rest)
            → value_of name after ≡ true
            → any (confirms name) arguments ≡ true)
        → (d : Bool) (v : Option Bool) → is_defined n values ≡ d
        → flag_value text ≡ v
        → any (confirms name) (a ∷ arguments) ≡ true
    go_named n text e later false v e1 e2 = ground (arith, e, e1, q)
    go_named n text e later true none e1 e2 = ground (arith, e, e1, e2, q)
    go_named n text e later true (some b) e1 e2 =
        elim (Bool-cases (value_of name (set n b values))) [
          | inl now ↦
              let (same, truth) = value_of-set name n b values h now in
              ground (arith, e, e2, same, truth)
          | inr not_yet ↦
              let found =
                later (set n b values) not_yet (sym (parse_next values a arguments e e1 e2) ∙ q)
                  is_set in
              ground (arith, found)
        ]

    go :
        (t : Token)
        → token a ≡ t
        → ((now : Values)
            → value_of name now ≡ false
            → parse now arguments ≡ good (after, rest)
            → value_of name after ≡ true
            → any (confirms name) arguments ≡ true)
        → any (confirms name) (a ∷ arguments) ≡ true
    go positional e later = ground (arith, e, h, q, is_set)
    go terminator e later = ground (arith, e, h, q, is_set)
    go ill_formed e later = ground (arith, e, q)
    go (named n text) e later =
        go_named n text e later (is_defined n values) (flag_value text) refl refl
