-- ===== src/Git/Commands/Runs.antt =====
-- git.go: what one git process leaves in the log of requests.
use repo_man.Git.Commands.{no_ext, run}
use repo_man.Git.System.{Log, System, git}
use repo_man.Base.{◌≡◌, refl, List, [], ◌∷◌, Str, codes, Option-cases, inl, inr}

abbrev pub fetch_args : List Str
fetch_args = no_ext (codes "fetch" ∷ codes "--all" ∷ codes "--prune" ∷ codes "--quiet" ∷ [])

abbrev pub pull_args : List Str
pull_args = no_ext (codes "pull" ∷ codes "--ff-only" ∷ codes "--prune" ∷ codes "--quiet" ∷ [])

pub run-log :
    (sys : System) (log : Log) (dir : Str) (args : List Str)
    → (run sys log dir args).1 ≡ git dir args ∷ log
unfolding run
run-log sys log dir args = elim (Option-cases (sys.git log dir args).failure) [
  | inl e ↦ rw (run, e) refl
  | inr (m, e) ↦ rw (run, e) refl
]
