-- ===== src/Cli/Root/Nearest.antt =====
-- Which directory `findRepositoryRoot` returns.
use arxveil.Prelude.{
  ◌≡◌, ◌≢◌, refl, sym, ap, subst, ◌⊎◌, inl, inr, Bool, true, false, Bool-cases, [], ◌∷◌, ◌++◌,
}
use arxveil.Cli.Errors.{no_repository_root, good, bad}
use arxveil.Cli.Root.{Directory, is_root, find_repository_root}

module _ (is_file : Directory → Bool) where
  -- No directory from `start` up is a repository root.
  abbrev pub Rootless : Directory → Type 0
  Rootless start =
      (below above : Directory) → start ≡ below ++ above → is_root is_file above ≡ false

  -- The directory is the start or above it, and it is the nearest that is a repository root.
  abbrev pub IsNearest : Directory → Directory → Type 0
  IsNearest start d =
      (between : Directory) × (start ≡ between ++ d)
      × (is_root is_file d ≡ true)
      × ((below above : Directory)
          → between ≡ below ++ above
          → above ≢ []
          → is_root is_file (above ++ d) ≡ false)

  empty_above : (below above : Directory) → [] ≡ below ++ above → above ≡ []
  empty_above [] above e = sym e
  empty_above (x ∷ below) above e = cc

  further :
      (name : _) (start d : Directory)
      → is_root is_file (name ∷ start) ≡ false
      → IsNearest start d
      → IsNearest (name ∷ start) d
  further name start d here (between, e, root, nearer) =
      (name ∷ between, ap (λ p. name ∷ p) e, root, go)
    where
      go :
          (below above : Directory)
          → name ∷ between ≡ below ++ above
          → above ≢ []
          → is_root is_file (above ++ d) ≡ false
      go [] above q n =
          subst (λ p. is_root is_file (p ++ d) ≡ false) q
            (subst (λ p. is_root is_file (name ∷ p) ≡ false) e here)
      go (x ∷ below) above q n = nearer below above (cc) n

  higher :
      (name : _) (start : Directory)
      → is_root is_file (name ∷ start) ≡ false
      → Rootless start
      → Rootless (name ∷ start)
  higher name start here none [] above e = subst (λ p. is_root is_file p ≡ false) e here
  higher name start here none (x ∷ below) above e = none below above cc

  -- Whatever files there are, `findRepositoryRoot` returns the nearest directory from the start up
  -- that has both files of a repository root, or, if no directory from the start up has them, the
  -- error that says so.
  pub find_repository_root_lem :
      (start : Directory)
      → ((d : Directory) × (find_repository_root is_file start ≡ good d) × IsNearest start d)
        ⊎ ((find_repository_root is_file start ≡ bad no_repository_root) × Rootless start)
  unfolding find_repository_root
  find_repository_root_lem [] = elim (Bool-cases (is_root is_file [])) [
    | inl here ↦
        inl
          ([], rw here, ([], refl, here, λ below above e n. absurd (n (empty_above below above e))))
    | inr absent ↦ inr (rw absent, λ below above e. rw (empty_above below above e) absent)
  ]
  find_repository_root_lem (name ∷ parent) = elim (Bool-cases (is_root is_file (name ∷ parent))) [
    | inl here ↦ inl (
      name ∷ parent,
      rw (here, find_repository_root),
      ([], refl, here, λ below above e n. absurd (n (empty_above below above e))),
    )
    | inr absent ↦ elim (find_repository_root_lem parent) [
      | inl (d, e, nearest) ↦
          inl (d, rw (absent, find_repository_root) e, further name parent d absent nearest)
      | inr (e, none) ↦ inr (rw (absent, find_repository_root) e, higher name parent absent none)
    ]
  ]
