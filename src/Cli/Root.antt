-- ===== src/Cli/Root.antt =====
-- `findRepositoryRoot` of tools/arxveil/main.go. An absolute path that `filepath.Clean` has made is the list
-- of its elements, the last one first; `filepath.Dir` drops this one, and the parent of `/` is `/`.
pub mod Nearest
use arxveil.Prelude.{Bool, true, false, not, ◌&&◌, List, [], ◌∷◌, ◌++◌, reverse, if◌then◌else◌}
use arxveil.Go.Text.{Bytes, codes}
use arxveil.Go.Fault.{Result, ok, err}
use arxveil.Cli.Errors.{no_repository_root, Checked, good, bad}

abbrev pub Directory : Type 0
Directory = List Bytes

-- The text of a path.
abbrev pub elements : List Bytes → Bytes
elements [] = []
elements (e ∷ []) = e
elements (e ∷ f ∷ es) = e ++ 47 ∷ elements (f ∷ es)

abbrev pub path_text : Directory → Bytes
path_text path = 47 ∷ elements (reverse path)

-- `filepath.Join(directory, "<first>", "<second>")`
abbrev pub join : Directory → Bytes → Bytes → Directory
join directory first second = second ∷ first ∷ directory

-- `isFile`: `os.Stat` succeeds, and its answer is not `IsDir`.
abbrev pub is_file_by : (Directory → Result Bool) → Directory → Bool
is_file_by stat path = elim (stat path) [ ok is_directory ↦ not is_directory | err _ ↦ false ]

-- `is_file` is what `isFile` answers.
module _ (is_file : Directory → Bool) where
  abbrev pub is_root : Directory → Bool
  is_root directory =
      is_file (join directory (codes "infra") (codes "compose.yaml"))
      && is_file (join directory (codes "proto") (codes "Dockerfile.go"))

  unfoldable pub find_repository_root : Directory → Checked Directory
  find_repository_root [] = if is_root [] then good [] else bad no_repository_root
  find_repository_root (name ∷ parent) = elim (is_root (name ∷ parent)) [
    | true ↦ good (name ∷ parent)
    | false ↦ find_repository_root parent
  ]
