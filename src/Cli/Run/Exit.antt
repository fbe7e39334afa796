-- ===== src/Cli/Run/Exit.antt =====
-- When the command line tool succeeds, and when it fails.
use arxveil.Prelude.{ℕ, ◌≡◌, refl, ◌⊎◌, inl, inr, Bool, true, false, List, [], ◌∷◌, if◌then◌else◌}
use arxveil.Go.Text.{Bytes, codes}
use arxveil.Go.Fault.{Fault, Result, ok, err}
use arxveil.Cli.Errors.{Error, Checked, good, bad, ◌>>=◌}
use arxveil.Cli.Root.{Directory, is_file_by, find_repository_root}
use arxveil.Cli.Run.{
  CommandRunner, Printed, usage, error, error_and_usage, docker_failed, no_working_directory,
  resolved, command_of, asks_for_help, executed, run_command, run_in, run, main,
}

abbrev pub IsHelp : List Bytes → Type 0
IsHelp [] = Unit
IsHelp (name ∷ rest) = asks_for_help name ≡ true

module _ {S : Type 0} (absolute : Bytes → Result Directory) (is_file : Directory → Bool)
    (execute : CommandRunner S) where
  abbrev pub root_of : Bytes → Checked Directory
  root_of working_directory = resolved (absolute working_directory) >>= find_repository_root is_file

  -- Docker has run the command that the arguments name, in the repository root, and has succeeded.
  abbrev pub Done : List Bytes → Bytes → S → S → Type 0
  Done [] working_directory s s' = ⊥
  Done (name ∷ rest) working_directory s s' =
      (root : Directory) × (command : List Bytes) × (asks_for_help name ≡ false)
      × (root_of working_directory ≡ good root)
      × (command_of name rest root ≡ good command)
      × (execute (codes "docker") command root s ≡ (ok tt, s'))

  -- Docker was not run, or it has run the command that the arguments name and has failed.
  abbrev pub Fails : List Bytes → Bytes → S → (ℕ × Printed) × S → Type 0
  Fails [] working_directory s out = ⊥
  Fails (name ∷ rest) working_directory s out =
      (asks_for_help name ≡ false)
      × (((e : Error) × (root_of working_directory ≡ bad e) × (out ≡ ((1, error e), s)))
          ⊎ ((root : Directory) × (root_of working_directory ≡ good root)
              × (((e : Error) × (command_of name rest root ≡ bad e)
                    × (out ≡ ((1, error_and_usage e), s)))
                  ⊎ ((command : List Bytes) × (e : Fault) × (s' : S) × (command_of name rest root
                        ≡ good command)
                      × (execute (codes "docker") command root s ≡ (err e, s'))
                      × (out ≡ ((1, docker_failed e), s'))))))

  -- The two ways to succeed.
  abbrev pub Succeeds : List Bytes → Bytes → S → (ℕ × Printed) × S → Type 0
  Succeeds arguments working_directory s out =
      (IsHelp arguments × (out ≡ ((0, usage), s)))
      ⊎ ((out.0 ≡ (0, Printed.nothing)) × Done arguments working_directory s out.1)

  module _ (name : Bytes) (rest : List Bytes) (working_directory : Bytes) (s : S) where
    abbrev Ok : (ℕ × Printed) × S → Type 0
    Ok out =
        Fails (name ∷ rest) working_directory s out ⊎ Succeeds (name ∷ rest) working_directory s out

    executed-Ok :
        (root : Directory) (command : List Bytes) (p : Result (Unit {0}) × S)
        → asks_for_help name ≡ false
        → root_of working_directory ≡ good root
        → command_of name rest root ≡ good command
        → execute (codes "docker") command root s ≡ p
        → Ok (executed absolute is_file execute p)
    executed-Ok root command (ok tt, s') h f c q = inr (inr (refl, (root, command, h, f, c, q)))
    executed-Ok root command (err e, s') h f c q =
        inl (h, inr (root, f, inr (command, e, s', c, q, refl)))

    command-Ok :
        (root : Directory) (c : Checked (List Bytes))
        → asks_for_help name ≡ false
        → root_of working_directory ≡ good root
        → command_of name rest root ≡ c
        → Ok (run_command absolute is_file execute root c s)
    command-Ok root (bad e) h f q = inl (h, inr (root, f, inl (e, q, refl)))
    command-Ok root (good command) h f q =
        executed-Ok root command (execute (codes "docker") command root s) h f q refl

    root-Ok :
        (f : Checked Directory)
        → asks_for_help name ≡ false
        → root_of working_directory ≡ f
        → Ok (run_in absolute is_file execute f name rest s)
    root-Ok (bad e) h q = inl (h, inl (e, q, refl))
    root-Ok (good root) h q = command-Ok root (command_of name rest root) h q refl

    help-Ok :
        (b : Bool)
        → asks_for_help name ≡ b
        → Ok (
            if b
            then ((0, usage), s)
            else run_in absolute is_file execute (root_of working_directory) name rest s)
    help-Ok true h = inr (inl (h, refl))
    help-Ok false h = root-Ok (root_of working_directory) h refl

  run_exits :
      (arguments : List Bytes) (working_directory : Bytes) (s : S)
      → let out = run absolute is_file execute arguments working_directory s in
        Fails arguments working_directory s out ⊎ Succeeds arguments working_directory s out
  unfolding run
  run_exits [] working_directory s = inr (inl (tt, refl))
  run_exits (name ∷ rest) working_directory s =
      help-Ok name rest working_directory s (asks_for_help name) refl

module _ {S : Type 0} (absolute : Bytes → Result Directory) (stat : Directory → Result Bool)
    (execute : CommandRunner S) where
  -- `os.Getwd` has failed, or `run` fails in the working directory.
  abbrev pub ToolFails : Result Bytes → List Bytes → S → (ℕ × Printed) × S → Type 0
  ToolFails (err e) arguments s out = out ≡ ((1, no_working_directory e), s)
  ToolFails (ok working_directory) arguments s out =
      Fails absolute (is_file_by stat) execute arguments working_directory s out

  abbrev pub ToolSucceeds : Result Bytes → List Bytes → S → (ℕ × Printed) × S → Type 0
  ToolSucceeds (err e) arguments s out = ⊥
  ToolSucceeds (ok working_directory) arguments s out =
      Succeeds absolute (is_file_by stat) execute arguments working_directory s out

  -- Either the tool succeeds: the working directory is known, and help was asked for, the usage is
  -- printed and nothing is run; or help was not asked for, the repository root was found, the
  -- arguments name a command, and Docker has run it in the root and has succeeded, and nothing is
  -- printed. The status is then 0. Or the tool fails, with status 1: the working directory is not
  -- known; or the root was not found, and the error is printed; or the arguments name no command,
  -- and the error is printed with the usage; or Docker has run the command in the root and has
  -- failed, and that is printed. Docker is not run in any other case.
  pub main_exits :
      (getwd : Result Bytes) (arguments : List Bytes) (s : S)
      → let out = main absolute stat execute getwd arguments s in
        ToolFails getwd arguments s out ⊎ ToolSucceeds getwd arguments s out
  unfolding main
  main_exits (err e) arguments s = inl refl
  main_exits (ok working_directory) arguments s =
      run_exits absolute (is_file_by stat) execute arguments working_directory s
