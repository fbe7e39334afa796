-- ===== src/Cli/Run.antt =====
-- `run` of tools/arxveil/main.go.
pub mod Calls
pub mod Exit
use arxveil.Prelude.{ℕ, Bool, true, false, ◌||◌, List, [], ◌∷◌, text_eq, ◌==◌, if◌then◌else◌}
use arxveil.Go.Text.{Bytes, codes}
use arxveil.Go.Fault.{Fault, Result, ok, err}
use arxveil.Go.Exec.{Exec}
use arxveil.Cli.Errors.{Error, unknown_command, unresolved, Checked, good, bad, ◌>>=◌}
use arxveil.Cli.Root.{Directory, is_file_by, find_repository_root}
use arxveil.Cli.Commands.{backend_command, generate_command}

-- What is printed: the usage on standard output, an error on standard error, an error with the usage,
-- that Docker failed, or that `os.Getwd` did.
pub data Printed : Type 0 where
  usage : Printed
  error error_and_usage : Error → Printed
  docker_failed no_working_directory : Fault → Printed
  nothing : Printed

-- `commandRunner`: a program, its arguments and the directory that it runs in.
abbrev pub CommandRunner : Type 0 → Type 0
CommandRunner S = Bytes → List Bytes → Directory → Exec S (Unit {0})

abbrev pub resolved : Result Directory → Checked Directory
resolved (ok path) = good path
resolved (err e) = bad (unresolved e)

abbrev pub command_of : Bytes → List Bytes → Directory → Checked (List Bytes)
command_of name rest root =
    if name == codes "backend"
    then backend_command root rest
    else if name == codes "generate"
    then generate_command root rest
    else bad (unknown_command name)

abbrev pub asks_for_help : Bytes → Bool
asks_for_help name = name == codes "help" || name == codes "--help" || name == codes "-h"

-- `absolute` is `filepath.Abs`, which asks the operating system if the path is relative.
module _ {S : Type 0} (absolute : Bytes → Result Directory) (is_file : Directory → Bool)
    (execute : CommandRunner S) where
  abbrev pub executed : Result (Unit {0}) × S → (ℕ × Printed) × S
  executed (ok _, s) = ((0, nothing), s)
  executed (err e, s) = ((1, docker_failed e), s)

  abbrev pub run_command : Directory → Checked (List Bytes) → S → (ℕ × Printed) × S
  run_command root (bad e) s = ((1, error_and_usage e), s)
  run_command root (good command) s = executed (execute (codes "docker") command root s)

  abbrev pub run_in : Checked Directory → Bytes → List Bytes → S → (ℕ × Printed) × S
  run_in (bad e) name rest s = ((1, error e), s)
  run_in (good root) name rest s = run_command root (command_of name rest root) s

  -- The exit code, and what is printed.
  unfoldable pub run : List Bytes → Bytes → S → (ℕ × Printed) × S
  run [] working_directory s = ((0, usage), s)
  run (name ∷ rest) working_directory s =
      if asks_for_help name
      then ((0, usage), s)
      else run_in (resolved (absolute working_directory) >>= find_repository_root is_file) name rest
          s

-- `stat` is `os.Stat`, whose answer says whether the path is a directory.
module _ {S : Type 0} (absolute : Bytes → Result Directory) (stat : Directory → Result Bool)
    (execute : CommandRunner S) where
  -- `main`: the exit status, and what is printed. The arguments are those after the program's name.
  unfoldable pub main : Result Bytes → List Bytes → S → (ℕ × Printed) × S
  main (err e) arguments s = ((1, no_working_directory e), s)
  main (ok working_directory) arguments s =
      run absolute (is_file_by stat) execute arguments working_directory s
