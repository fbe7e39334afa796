-- ===== src/Cli/Errors.antt =====
-- The errors of tools/arxveil/main.go, as the call that makes each and its arguments, and functions that
-- return a value or such an error.
use arxveil.Prelude.{List}
use arxveil.Go.Text.{Bytes}
use arxveil.Go.Fault.{Fault}

pub data Error : Type 0 where
  -- Of the package `flag`: `bad flag syntax: %s`, `flag provided but not defined: -%s`,
  -- `invalid boolean value %q for -%s`, and `flag.ErrHelp`.
  bad_flag_syntax : Bytes → Error
  flag_not_defined : Bytes → Error
  invalid_boolean : Bytes → Bytes → Error
  help_requested : Error
  -- `unexpected %s arguments: %s`
  unexpected_arguments : Bytes → List Bytes → Error
  missing_backend_command unconfirmed_reset generate_usage no_repository_root : Error
  unknown_command unknown_backend_command : Bytes → Error
  -- `resolve working directory: %w`, with the error of `filepath.Abs`.
  unresolved : Fault → Error

pub data Checked (A : Type 0) : Type 0 where
  good : A → Checked A
  bad : Error → Checked A

infixl 5 ◌>>=◌ ◌>>◌
abbrev pub ◌>>=◌ : {A C : Type 0} → Checked A → (A → Checked C) → Checked C
bad e >>= next = bad e
good a >>= next = next a

abbrev pub ◌>>◌ : {C : Type 0} → Checked (Unit {0}) → Checked C → Checked C
first >> second = first >>= λ done. second
