-- ===== src/Git/Commands.antt =====
-- internal/git/git.go: the commands that change a checkout, and the errors that they report.
pub mod Effects
pub mod Runs
use repo_man.Git.System.{
  Request, stat, lstat, read_dir, make_dirs, remove_all, git, Log, Found, missing, unreadable, file,
  directory, Exit, System,
}
use repo_man.Safepath.{slash, clean, join_path, parent_dir}
use repo_man.Base.{
  ℕ, Bool, true, false, not, ◌||◌, List, [], ◌∷◌, ◌++◌, Option, none, some, Str, codes, Result, ok,
  err, eqb, any, byte_len, contains, cut, has_prefix, join, keep, map, ltb, take_bytes, to_lower,
  trim_space, if◌then◌else◌,
}

-- hint
unfoldable pub hint : Str → Str
unfolding contains to_lower
hint msg =
    if contains msg (codes "dubious ownership")
    then codes
        " [repo-man is running as a different user than the one that owns this checkout: match UID/GID to the tree's owner, or add the path to git's safe.directory]"
    else if contains msg (codes "not a git repository")
    then codes " [the .git entry here is not a usable repository]"
    else if contains (to_lower msg) (codes "permission denied")
    then codes " [repo-man cannot read this path as the user it runs as]"
    else if contains msg (codes "could not read Username")
        || contains msg (codes "Authentication failed")
    then codes
        " [no usable credentials: check GH_TOKEN and the mounted gitconfig credential helper]"
    else []

-- The excerpt of stderr: 400 bytes, less a character that the limit cuts, and an ellipsis where there
-- was more.
unfoldable pub excerpt : Str → Str
unfolding take_bytes byte_len
excerpt msg = if ltb 400 (byte_len msg) then take_bytes 400 msg ++ codes "…" else msg

unfoldable pub git_error : List Str → Str → Str → Str
unfolding excerpt trim_space join eqb
git_error args stderr failure =
    let msg = excerpt (trim_space stderr) in
    codes "git "
    ++ (join args (codes " ") ++ (codes ": " ++ (if eqb msg [] then failure else msg ++ hint msg)))

-- The variables that hardenedEnv forces.
abbrev pub forced : List (Str × Str)
forced =
    (codes "GIT_TERMINAL_PROMPT", codes "0")
    ∷ (codes "GIT_ASKPASS", [])
    ∷ (codes "SSH_ASKPASS", [])
    ∷ (codes "GIT_OPTIONAL_LOCKS", codes "0")
    ∷ (codes "LC_ALL", codes "C")
    ∷ []

abbrev pub key_of : Option (Str × Str) → Option Str
key_of none = none
key_of (some (k, v)) = some k

-- A variable of the parent's environment is passed on unless its name is forced.
unfoldable pub is_passed : Str → Bool
unfolding cut any eqb
is_passed kv = elim (key_of (cut b'=' kv)) [
  | none ↦ true
  | some k ↦ not (any (λ (f : Str × Str). eqb f.0 k) forced)
]

abbrev pub assignment : Str × Str → Str
assignment (k, v) = k ++ b'=' ∷ v

unfoldable pub hardened_env : List Str → List Str
unfolding is_passed keep
hardened_env base = keep is_passed base ++ map assignment forced

-- What a command returns on the error paths.
pub data CommandError : Type 0 where
  invalid_branch not_directory not_empty system_error invalid_url already_exists : CommandError
  git_failed : Str → CommandError

abbrev pub is_missing : Found → Bool
is_missing missing = true
is_missing unreadable = false
is_missing file = false
is_missing directory = false

abbrev pub no_ext : List Str → List Str
no_ext args = codes "-c" ∷ codes "protocol.ext.allow=never" ∷ args

abbrev pub init_args : Str → List Str
init_args branch = codes "init" ∷ codes "--quiet" ∷ codes "-b" ∷ branch ∷ []

abbrev pub branch_or_main : Str → Str
branch_or_main branch = if eqb branch [] then codes "main" else branch

abbrev pub clone_args : Str → Str → List Str
clone_args url path = no_ext (codes "clone" ∷ codes "--progress" ∷ codes "--" ∷ url ∷ path ∷ [])

module _ (sys : System) where
  unfoldable pub run : Log → Str → List Str → Result CommandError Str × Log
  unfolding git_error
  run log dir args =
      let e = sys.git log dir args in
      elim e.failure [
        | none ↦ (ok e.stdout, git dir args ∷ log)
        | some f ↦ (err (git_failed (git_error args e.stderr f)), git dir args ∷ log)
      ]

  unfoldable pub common_dir : Log → Str → Result CommandError Str × Log
  unfolding run
  common_dir log path =
      let (out, log') = run log path (codes "rev-parse" ∷ codes "--git-common-dir" ∷ []) in
      elim out [
        | err e ↦ (err e, log')
        | ok text ↦
            let dir = trim_space text in
            (
              ok (if has_prefix dir (slash ∷ []) then clean dir else clean (join_path path dir)),
              log',
            )
      ]

  unfoldable pub fetch : Log → Str → Result CommandError Str × Log
  unfolding run
  fetch log path =
      run log path (no_ext (codes "fetch" ∷ codes "--all" ∷ codes "--prune" ∷ codes "--quiet" ∷ []))

  unfoldable pub pull : Log → Str → Result CommandError Str × Log
  unfolding run
  pull log path =
      run log path
        (no_ext (codes "pull" ∷ codes "--ff-only" ∷ codes "--prune" ∷ codes "--quiet" ∷ []))

  -- The switch over what os.Stat found.
  unfoldable pub init_found : Log → Str → Str → Found → Result CommandError Str × Log
  unfolding run
  init_found log path branch missing =
      if sys.make_dirs log path
      then run (make_dirs path ∷ log) path (init_args branch)
      else (err system_error, make_dirs path ∷ log)
  init_found log path branch unreadable = (err system_error, log)
  init_found log path branch file = (err not_directory, log)
  init_found log path branch directory = elim (sys.read_dir log path) [
    | none ↦ (err system_error, read_dir path ∷ log)
    | some [] ↦ run (read_dir path ∷ log) path (init_args branch)
    | some (e ∷ es) ↦ (err not_empty, read_dir path ∷ log)
  ]

  unfoldable pub init : Log → Str → Str → Result CommandError Str × Log
  unfolding init_found has_prefix eqb
  init log path branch =
      if has_prefix (branch_or_main branch) (b'-' ∷ [])
      then (err invalid_branch, log)
      else init_found (stat path ∷ log) path (branch_or_main branch) (sys.stat log path)

  -- The run of git clone, with `we_created_it`, and the removal of what a failed run left.
  unfoldable pub clone_run : Log → Str → Str → Bool → Result CommandError (Unit {0}) × Log
  unfolding git_error
  clone_run log url path we_created_it =
      let e = sys.git log [] (clone_args url path) in
      let log' = git [] (clone_args url path) ∷ log in
      elim e.failure [
        | none ↦ (ok tt, log')
        | some f ↦ (
          err (git_failed (git_error (codes "clone" ∷ url ∷ path ∷ []) e.stderr f)),
          if we_created_it then remove_all path ∷ log' else log',
        )
      ]

  unfoldable pub clone : Log → Str → Str → Result CommandError (Unit {0}) × Log
  unfolding clone_run has_prefix
  clone log url path =
      if has_prefix url (b'-' ∷ []) then (err invalid_url, log) else elim (sys.stat log path) [
        | missing ↦
            if sys.make_dirs (stat path ∷ log) (parent_dir path)
            then clone_run (lstat path ∷ make_dirs (parent_dir path) ∷ stat path ∷ log) url path
                (is_missing (sys.lstat (make_dirs (parent_dir path) ∷ stat path ∷ log) path))
            else (err system_error, make_dirs (parent_dir path) ∷ stat path ∷ log)
        | unreadable ↦ (err system_error, stat path ∷ log)
        | file ↦ (err already_exists, stat path ∷ log)
        | directory ↦ (err already_exists, stat path ∷ log)
      ]
