-- ===== src/Tests/CommandLine.antt =====
-- The command line, in a directory below a repository root.
use arxveil.Prelude.{
  ℕ, suc, ◌≡◌, refl, ◌⊎◌, Bool, false, if◌then◌else◌, List, [], ◌∷◌, text_eq, contains, bytes_beq,
}
use arxveil.Go.Text.{Bytes, codes}
use arxveil.Go.Fault.{Result, ok, err, other}
use arxveil.Cli.Errors.{good, bad, no_repository_root, unconfirmed_reset, ◌>>=◌}
use arxveil.Cli.Flags.{parse, token, parse_bool}
use arxveil.Cli.Root.{Directory, path_text, find_repository_root}
use arxveil.Cli.Root.Nearest.{IsNearest, Rootless, find_repository_root_lem}
use arxveil.Cli.Commands.{backend_command, reset_command}
use arxveil.Cli.Run.{CommandRunner, run, main, resolved, error_and_usage, nothing}
use arxveil.Cli.Run.Exit.{ToolFails, ToolSucceeds, main_exits}
use arxveil.Cli.Run.Calls.{Call, outcome, keeps_data, IsConfirmedReset, run_removes_volumes}

abbrev repository : Directory
repository = codes "arxveil" ∷ codes "home" ∷ []

abbrev below : Directory
below = codes "server" ∷ repository

abbrev files : List Bytes
files = codes "/home/arxveil/infra/compose.yaml" ∷ codes "/home/arxveil/proto/Dockerfile.go" ∷ []

abbrev is_file : Directory → Bool
is_file path = contains files (path_text path)

abbrev absolute : Bytes → Result Directory
absolute _ = ok below

abbrev reset : List Bytes
reset = codes "backend" ∷ codes "reset" ∷ codes "--yes" ∷ []

abbrev call : Call
call = record {
  program = codes "docker";
  arguments =
      codes "compose"
      ∷ codes "-f"
      ∷ codes "/home/arxveil/infra/compose.yaml"
      ∷ codes "down"
      ∷ codes "--volumes"
      ∷ codes "--remove-orphans"
      ∷ [];
  directory = repository;
}

abbrev no_calls : List Call
no_calls = []

calls_docker : (outcome absolute is_file (ok tt) (codes ".") reset).1 ≡ call ∷ []
unfolding run find_repository_root backend_command reset_command parse token parse_bool bytes_beq
calls_docker = refl

refuses :
    (outcome absolute is_file (ok tt) (codes ".") (codes "backend" ∷ codes "reset" ∷ [])).0
    ≡ (1, error_and_usage unconfirmed_reset)
unfolding run find_repository_root backend_command reset_command parse token parse_bool bytes_beq
refuses = refl

removes : keeps_data call ≡ false
unfolding bytes_beq
removes = refl

run_removes_volumes_example :
    (rest : List Bytes) × (reset ≡ codes "backend" ∷ rest)
    × IsConfirmedReset rest
    × (no_calls ≡ [])
    × ((resolved (absolute (codes ".")) >>= find_repository_root is_file) ≡ good repository)
run_removes_volumes_example =
    run_removes_volumes absolute is_file (ok tt) (codes ".") reset call no_calls calls_docker
      removes

find_repository_root_lem_example :
    ((d : Directory) × (find_repository_root is_file below ≡ good d) × IsNearest is_file below d)
    ⊎ ((find_repository_root is_file below ≡ bad no_repository_root) × Rootless is_file below)
find_repository_root_lem_example = find_repository_root_lem is_file below

-- A runner that counts its calls.
abbrev counting : CommandRunner ℕ
counting program arguments directory n = (ok tt, suc n)

abbrev stat : Directory → Result Bool
stat path = if is_file path then ok false else err (other "no such file")

abbrev here : Result Bytes
here = ok (codes ".")

resets : main absolute stat counting here reset 0 ≡ ((0, nothing), 1)
unfolding main run find_repository_root backend_command reset_command parse token parse_bool
    bytes_beq
resets = refl

main_exits_example :
    ToolFails absolute stat counting here reset 0 (main absolute stat counting here reset 0)
    ⊎ ToolSucceeds absolute stat counting here reset 0 (main absolute stat counting here reset 0)
main_exits_example = main_exits absolute stat counting here reset 0
