-- ===== src/Cli/Commands.antt =====
-- `backendCommand`, `generateCommand` and what they call, of tools/arxveil/main.go: the arguments for Docker.
use arxveil.Prelude.{Bool, true, false, List, [], ◌∷◌, ◌++◌, text_eq, ◌==◌, if◌then◌else◌}
use arxveil.Go.Text.{Bytes, codes}
use arxveil.Cli.Errors.{
  Error, unexpected_arguments, missing_backend_command, unconfirmed_reset, generate_usage,
  unknown_backend_command, Checked, good, bad, ◌>>=◌, ◌>>◌,
}
use arxveil.Cli.Flags.{value_of, parse}
use arxveil.Cli.Root.{Directory, path_text, join}

abbrev pub with_agents : Bytes
with_agents = codes "with-agents"

abbrev pub detach : Bytes
detach = codes "detach"

abbrev pub yes : Bytes
yes = codes "yes"

abbrev pub fail_unless : Bool → Error → Checked (Unit {0})
fail_unless true e = good tt
fail_unless false e = bad e

-- `if flags.NArg() != 0 { return ... }`
abbrev pub no_more : Bytes → List Bytes → Checked (Unit {0})
no_more name [] = good tt
no_more name (a ∷ rest) = bad (unexpected_arguments name (a ∷ rest))

unfoldable pub parse_with_agents : List Bytes → Bytes → Checked Bool
parse_with_agents arguments command_name = do
  (values, rest) ← parse ((with_agents, false) ∷ []) arguments
  no_more command_name rest
  good (value_of with_agents values)

abbrev pub agents_file : Directory → Bool → List Bytes
agents_file root false = []
agents_file root true =
    codes "-f" ∷ path_text (join root (codes "infra") (codes "compose.agents.yaml")) ∷ []

abbrev pub compose_command : Directory → Bool → List Bytes
compose_command root agents =
    codes "compose"
    ∷ codes "-f"
    ∷ path_text (join root (codes "infra") (codes "compose.yaml"))
    ∷ agents_file root agents

module _ (root : Directory) where
  abbrev detached : Bool → List Bytes
  detached true = codes "--detach" ∷ []
  detached false = []

  unfoldable pub start_command : List Bytes → Checked (List Bytes)
  start_command arguments = do
    (values, rest) ← parse ((with_agents, false) ∷ (detach, false) ∷ []) arguments
    no_more (codes "backend start") rest
    good (
        compose_command root (value_of with_agents values)
        ++ (codes "up" ∷ codes "--build" ∷ detached (value_of detach values)))

  unfoldable pub stop_command : List Bytes → Checked (List Bytes)
  stop_command arguments = do
    agents ← parse_with_agents arguments (codes "backend stop")
    good (compose_command root agents ++ (codes "down" ∷ []))

  unfoldable pub status_command : List Bytes → Checked (List Bytes)
  status_command arguments = do
    agents ← parse_with_agents arguments (codes "backend status")
    good (compose_command root agents ++ (codes "ps" ∷ []))

  unfoldable pub logs_command : List Bytes → Checked (List Bytes)
  logs_command arguments = do
    (values, rest) ← parse ((with_agents, false) ∷ []) arguments
    good (
        compose_command root (value_of with_agents values)
        ++ (codes "logs" ∷ codes "--follow" ∷ rest))

  unfoldable pub reset_command : List Bytes → Checked (List Bytes)
  reset_command arguments = do
    (values, rest) ← parse ((with_agents, false) ∷ (yes, false) ∷ []) arguments
    no_more (codes "backend reset") rest
    fail_unless (value_of yes values) unconfirmed_reset
    good (
        compose_command root (value_of with_agents values)
        ++ (codes "down" ∷ codes "--volumes" ∷ codes "--remove-orphans" ∷ []))

  unfoldable pub backend_command : List Bytes → Checked (List Bytes)
  backend_command [] = bad missing_backend_command
  backend_command (name ∷ rest) =
      if name == codes "start"
      then start_command rest
      else if name == codes "stop"
      then stop_command rest
      else if name == codes "status"
      then status_command rest
      else if name == codes "logs"
      then logs_command rest
      else if name == codes "reset"
      then reset_command rest
      else bad (unknown_backend_command name)

  abbrev build_command : List Bytes
  build_command =
      codes "build"
      ∷ codes "--target"
      ∷ codes "output"
      ∷ codes "--file"
      ∷ path_text (join root (codes "proto") (codes "Dockerfile.go"))
      ∷ codes "--output"
      ∷ (codes "type=local,dest="
          ++ path_text (codes "gen" ∷ codes "internal" ∷ codes "server" ∷ root))
      ∷ path_text root
      ∷ []

  unfoldable pub generate_command : List Bytes → Checked (List Bytes)
  generate_command (name ∷ []) =
      if name == codes "go" then good build_command else bad generate_usage
  generate_command _ = bad generate_usage
