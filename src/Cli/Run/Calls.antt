-- ===== src/Cli/Run/Calls.antt =====
-- What `run` asks Docker to do, and when it is to remove data.
use arxveil.Prelude.{
  ℕ, ◌≡◌, refl, ap, inl, inr, Bool, true, false, Bool-cases, ◌&&◌, List, [], ◌∷◌, any, text_eq,
  ◌==◌, eq→path, ◌||◌, all, subst, bytes_beq, if◌then◌else◌, arith,
}
use arxveil.Go.Text.{Bytes, codes}
use arxveil.Go.Fault.{Result}
use arxveil.Cli.Errors.{Checked, good, bad, ◌>>=◌}
use arxveil.Cli.Flags.{Values, parse}
use arxveil.Cli.Flags.Confirmed.{confirms, parse-confirms}
use arxveil.Cli.Root.{Directory, find_repository_root}
use arxveil.Cli.Commands.{
  with_agents, yes, parse_with_agents, start_command, stop_command, status_command, logs_command,
  reset_command, backend_command, generate_command,
}
use arxveil.Cli.Run.{CommandRunner, asks_for_help, command_of, run, resolved, Printed}

pub record Call : Type 0 where
  pub program : Bytes
  pub arguments : List Bytes
  pub directory : Directory

-- A runner that notes its calls, and answers each the same.
abbrev pub noting : Result (Unit {0}) → CommandRunner (List Call)
noting answer program arguments directory calls =
    (answer, record { program = program; arguments = arguments; directory = directory } ∷ calls)

-- What Docker Compose reads after its files.
abbrev pub after_files : List Bytes → List Bytes
after_files [] = []
after_files (x ∷ []) = x ∷ []
after_files (x ∷ y ∷ rest) =
    let more = after_files rest in if x == codes "-f" then more else x ∷ y ∷ rest

abbrev ends : List Bytes → Bool
ends [] = true
ends (_ ∷ _) = false

-- Options of `up` that create no volume anew.
abbrev pub is_plain_up : Bytes → Bool
is_plain_up option = option == codes "--build" || option == codes "--detach"

-- The commands of Docker Compose that are known to leave every volume: `down` has no option at all,
-- since its options can be spelled in many ways (`--volumes`, `-v`, `--volumes=true`).
abbrev pub keeps_services : List Bytes → Bool
keeps_services [] = false
keeps_services (x ∷ rest) =
    (x == codes "up" && all is_plain_up rest)
    || (x == codes "down" && ends rest)
    || x == codes "ps"
    || x == codes "logs"

-- The commands of Docker that are known to leave every volume.
abbrev pub keeps_volumes : List Bytes → Bool
keeps_volumes [] = false
keeps_volumes (x ∷ rest) =
    x == codes "build" || (x == codes "compose" && keeps_services (after_files rest))

abbrev pub keeps_data : Call → Bool
keeps_data call = call.program == codes "docker" && keeps_volumes call.arguments

module _ (root : Directory) (rest : List Bytes) {command : List Bytes} where
  start_keeps_volumes : start_command root rest ≡ good command → keeps_volumes command ≡ true
  unfolding start_command bytes_beq
  start_keeps_volumes q = ground (arith, q)

  logs_keeps_volumes : logs_command root rest ≡ good command → keeps_volumes command ≡ true
  unfolding logs_command bytes_beq
  logs_keeps_volumes q = ground (arith, q)

  stop_keeps_volumes : stop_command root rest ≡ good command → keeps_volumes command ≡ true
  unfolding stop_command parse_with_agents bytes_beq
  stop_keeps_volumes q = ground (arith, q)

  status_keeps_volumes : status_command root rest ≡ good command → keeps_volumes command ≡ true
  unfolding status_command parse_with_agents bytes_beq
  status_keeps_volumes q = ground (arith, q)

  generate_keeps_volumes : generate_command root rest ≡ good command → keeps_volumes command ≡ true
  unfolding generate_command bytes_beq
  generate_keeps_volumes q = ground (arith, q)

  -- A reset that goes ahead was confirmed.
  reset_confirmed : reset_command root rest ≡ good command → any (confirms yes) rest ≡ true
  unfolding reset_command bytes_beq
  reset_confirmed q = go (parse ((with_agents, false) ∷ (yes, false) ∷ []) rest) refl
    where
      go :
          (p : Checked (Values × List Bytes))
          → parse ((with_agents, false) ∷ (yes, false) ∷ []) rest ≡ p
          → any (confirms yes) rest ≡ true
      go (bad e) h = ground (arith, h, q)
      go (good (values, left)) h =
          parse-confirms yes ((with_agents, false) ∷ (yes, false) ∷ []) rest {rest = left} refl h
            (ground (arith, h, q))

-- The arguments of a reset, one of which confirms it.
abbrev pub IsConfirmedReset : List Bytes → Type 0
IsConfirmedReset arguments =
    (options : List Bytes) × (arguments ≡ codes "reset" ∷ options)
    × (any (confirms yes) options ≡ true)

module _ (root : Directory) {command : List Bytes} where
  asks_for_reset :
      (name : Bytes) (rest : List Bytes)
      → backend_command root (name ∷ rest) ≡ good command
      → keeps_volumes command ≡ false
      → ((name == codes "reset") ≡ true) × (reset_command root rest ≡ good command)
  unfolding backend_command
  asks_for_reset name rest q removes = ground (
    arith,
    q,
    removes,
    start_keeps_volumes root rest {command = command},
    stop_keeps_volumes root rest {command = command},
    status_keeps_volumes root rest {command = command},
    logs_keeps_volumes root rest {command = command},
  )

  backend_command-removes :
      (arguments : List Bytes)
      → backend_command root arguments ≡ good command
      → keeps_volumes command ≡ false
      → IsConfirmedReset arguments
  unfolding backend_command
  backend_command-removes [] q removes = cc
  backend_command-removes (name ∷ rest) q removes =
      let (is_reset, resets) = asks_for_reset name rest q removes in
      (
        rest,
        ap (λ n. n ∷ rest) (eq→path name (codes "reset") is_reset),
        reset_confirmed root rest resets,
      )

unkept_volumes :
    (call : Call)
    → call.program ≡ codes "docker"
    → keeps_data call ≡ false
    → keeps_volumes call.arguments ≡ false
unfolding bytes_beq
unkept_volumes call docker removes =
    subst (λ p. (p == codes "docker" && keeps_volumes call.arguments) ≡ false) docker removes

module _ (absolute : Bytes → Result Directory) (is_file : Directory → Bool)
    (answer : Result (Unit {0})) (working_directory : Bytes) where
  -- The exit code and the output of `run`, and the calls of the runner.
  abbrev pub outcome : List Bytes → (ℕ × Printed) × List Call
  outcome arguments = run absolute is_file (noting answer) arguments working_directory []

  abbrev pub found : Checked Directory
  found = resolved (absolute working_directory) >>= find_repository_root is_file

  -- The one call comes from the command that the first argument names.
  run_called :
      (name : Bytes) (rest : List Bytes) (call : Call) (calls : List Call)
      → (outcome (name ∷ rest)).1 ≡ call ∷ calls
      → (call.program ≡ codes "docker")
        × (command_of name rest call.directory ≡ good call.arguments)
        × (found ≡ good call.directory)
        × (calls ≡ [])
  unfolding run
  run_called name rest call calls q = elim (Bool-cases (asks_for_help name)) [
    | inl help ↦ absurd (ground (arith, help, q))
    | inr runs ↦ go runs found refl
  ]
    where
      go_command :
          asks_for_help name ≡ false
          → (root : Directory) → found ≡ good root
          → (c : Checked (List Bytes)) → command_of name rest root ≡ c
          → (call.program ≡ codes "docker")
            × (command_of name rest call.directory ≡ good call.arguments)
            × (found ≡ good call.directory)
            × (calls ≡ [])
      go_command other root e (bad d) h = ground (arith, other, e, h, q)
      go_command other root e (good command) h = ground (arith, other, e, h, q)

      go :
          asks_for_help name ≡ false
          → (f : Checked Directory) → found ≡ f
          → (call.program ≡ codes "docker")
            × (command_of name rest call.directory ≡ good call.arguments)
            × (found ≡ good call.directory)
            × (calls ≡ [])
      go other (bad d) e = ground (arith, other, e, q)
      go other (good root) e = go_command other root e (command_of name rest root) refl

  is_backend :
      (name : Bytes) (rest : List Bytes) (root : Directory) (command : List Bytes)
      → command_of name rest root ≡ good command
      → keeps_volumes command ≡ false
      → ((name == codes "backend") ≡ true) × (backend_command root rest ≡ good command)
  is_backend name rest root command q removes =
      ground (arith, q, removes, generate_keeps_volumes root rest {command = command})

  -- Whatever the runner answers: every call that `run` makes runs `docker build`, or Docker Compose
  -- with `ps`, with `logs`, with `up` and no option besides `--build` and `--detach`, or with
  -- `down` and no option at all, with the one exception of a call that is the only one, is made in
  -- the directory that `findRepositoryRoot` returns, and is made for the arguments `backend reset`
  -- and options, one of which is `--yes` (or `-yes`, or one of these with `=` and a text for true).
  pub run_removes_volumes :
      (arguments : List Bytes) (call : Call) (calls : List Call)
      → (outcome arguments).1 ≡ call ∷ calls
      → keeps_data call ≡ false
      → (rest : List Bytes) × (arguments ≡ codes "backend" ∷ rest)
        × IsConfirmedReset rest
        × (calls ≡ [])
        × (found ≡ good call.directory)
  unfolding run
  run_removes_volumes [] call calls q removes = cc
  run_removes_volumes (name ∷ rest) call calls q removes =
      let (docker, command, root, alone) = run_called name rest call calls q in
      let unkept = unkept_volumes call docker removes in
      let (backend, resets) = is_backend name rest call.directory call.arguments command unkept in
      (
        rest,
        ap (λ n. n ∷ rest) (eq→path name (codes "backend") backend),
        backend_command-removes call.directory rest resets unkept,
        alone,
        root,
      )
