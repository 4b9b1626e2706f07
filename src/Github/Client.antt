-- ===== src/Github/Client.antt =====
-- internal/github/github.go: the client, which runs the gh CLI. The end of a process of gh is an
-- argument.
use repo_man.Index.{Lister}
use repo_man.Model.{Ghost}
use repo_man.Github.{Decoder, ListError, list_owner}
use repo_man.Base.{
  not, ◌&&◌, List, [], ◌∷◌, ◌++◌, Option, none, some, Str, codes, Result, ok, err, byte_len, eqb,
  join, ltb, take_bytes, trim_space, if◌then◌else◌,
}

-- How cmd.Run fails: the executable is not there, or another error.
pub data Failure : Type 0 where
  no_executable : Failure
  exited : Str → Failure

pub record GhExit : Type 0 where
  pub stdout : Str
  pub stderr : Str
  pub failure : Option Failure

-- The end of a process, for its executable, its environment and its arguments.
abbrev pub Exec : Type 0
Exec = Str → List Str → List Str → GhExit

pub record Client : Type 0 where
  pub bin : Str

-- New
unfoldable pub new_client : Str → Client
unfolding eqb
new_client bin = record { bin = if eqb bin [] then codes "gh" else bin }

abbrev pub quiet_env : List Str
quiet_env =
    codes "GH_PAGER=cat" ∷ codes "GH_NO_UPDATE_NOTIFIER=1" ∷ codes "GH_PROMPT_DISABLED=1" ∷ []

-- The environment of a process of gh.
unfoldable pub gh_env : List Str → Str → List Str
unfolding eqb
gh_env environ host =
    environ
    ++ (quiet_env
        ++ (if not (eqb host []) && not (eqb host (codes "github.com"))
            then (codes "GH_HOST=" ++ host) ∷ []
            else []))

-- The excerpt of the error output: 2000 bytes, less a character that the limit cuts.
unfoldable pub gh_excerpt : Str → Str
unfolding byte_len take_bytes
gh_excerpt msg =
    if ltb 2000 (byte_len msg) then take_bytes 2000 msg ++ codes "... (truncated)" else msg

abbrev pub gh_command : List Str → Str
gh_command args = codes "gh " ++ (join args (codes " ") ++ codes ": ")

-- execError; `quote` is the verb %q.
unfoldable pub exec_error : (Str → Str) → Str → List Str → Failure → Str → Str
unfolding gh_excerpt eqb join trim_space
exec_error quote bin args no_executable stderr =
    codes "gh CLI "
    ++ (quote bin
        ++ codes
            " not found: install it from https://cli.github.com/, or configure repo-man with the correct gh binary path")
exec_error quote bin args (exited e) stderr =
    let msg = trim_space stderr in
    gh_command args ++ (if eqb msg [] then e else e ++ (codes ": " ++ gh_excerpt msg))

abbrev exit_result : (Str → Str) → Str → List Str → Str → Str → Option Failure → Result Str Str
exit_result quote bin args stdout stderr none = ok stdout
exit_result quote bin args stdout stderr (some f) = err (exec_error quote bin args f stderr)

abbrev repo_list_args : Str → List Str
repo_list_args login =
    codes "repo"
    ∷ codes "list"
    ∷ login
    ∷ codes "--limit"
    ∷ codes "1000"
    ∷ codes "--json"
    ∷ codes "name,description,isPrivate,isFork,isArchived,updatedAt,url,defaultBranchRef"
    ∷ []

abbrev output : Result Str Str → Option Str
output (ok out) = some out
output (err e) = none

module _ (exec : Exec) (environ : List Str) (quote : Str → Str) where
  -- run
  unfoldable pub run_gh : Client → Str → List Str → Result Str Str
  unfolding gh_env exec_error
  run_gh c host args =
      let e = exec c.bin (gh_env environ host) args in
      exit_result quote c.bin args e.stdout e.stderr e.failure

  -- Check: the error that run gives, where gh is not ready.
  abbrev checked : Result Str Str → Option Str
  checked (ok out) = none
  checked (err e) = some (
      codes
        "gh CLI is not ready (install from https://cli.github.com/ if missing, or run `gh auth login` / set GH_TOKEN to authenticate): "
      ++ e)

  unfoldable pub check_gh : Client → Option Str
  unfolding run_gh
  check_gh c = checked (run_gh c [] (codes "auth" ∷ codes "status" ∷ []))

  -- What ListOwner reads of gh, and ListOwner with it.
  unfoldable pub repo_list_output : Client → Str → Str → Option Str
  unfolding run_gh
  repo_list_output c host login = output (run_gh c host (repo_list_args login))

  abbrev listed : (ListError → Str) → Result ListError (List Ghost) → Result Str (List Ghost)
  listed text (ok ghosts) = ok ghosts
  listed text (err e) = err (text e)

  -- The client as the lister of the index; `text` gives the texts of the errors.
  unfoldable pub gh_lister : (ListError → Str) → Decoder → Client → Lister
  unfolding repo_list_output list_owner
  gh_lister text decode c host login =
      listed text (list_owner (repo_list_output c) decode host login)
