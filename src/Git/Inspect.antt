-- ===== src/Git/Inspect.antt =====
-- internal/git/status.go: Inspect, and the requests that it makes. time.Parse and url.Parse are
-- arguments.
use repo_man.Git.System.{read_time, Log, System}
use repo_man.Git.Commands.{CommandError, run, common_dir}
use repo_man.Git.Porcelain.{Porcelain, parse_porcelain_v2}
use repo_man.Git.Remote.{UrlParser, parse_remote_url}
use repo_man.Model.{Remote, Status}
use repo_man.Safepath.{join_path}
use repo_man.Base.{
  ℕ, List, [], ◌∷◌, Option, none, some, Str, codes, Result, ok, err, eqb, length, split, trim_right,
  trim_space, if◌then◌else◌, ◌==◌,
}

-- time.Parse(time.RFC3339, s)
abbrev pub TimeParser : Type 0
TimeParser = Str → Option ℕ

-- The short hash, the date and the subject of a commit.
pub record Commit : Type 0 where
  pub short : Str
  pub time : ℕ
  pub subject : Str

abbrev pub time_or_zero : Option ℕ → ℕ
time_or_zero none = 0
time_or_zero (some t) = t

abbrev pub commit_of : TimeParser → List Str → Option Commit
commit_of parse_time (short ∷ time ∷ subject ∷ []) =
    some (record { short = short; time = time_or_zero (parse_time time); subject = subject })
commit_of parse_time parts = none

abbrev pub bare : Remote
bare = record { url = []; host = []; owner = []; name = [] }

module _ (sys : System) where
  unfoldable pub last_commit : TimeParser → Log → Str → Option Commit × Log
  unfolding run
  last_commit parse_time log path =
      let (out, log') =
        run sys log path (codes "log" ∷ codes "-1" ∷ codes "--format=%h%x00%cI%x00%s" ∷ []) in
      elim out [
        | err e ↦ (none, log')
        | ok text ↦ (commit_of parse_time (split (trim_right (λ c. c == b'\n') text) 0), log')
      ]

  unfoldable pub stash_count : Log → Str → ℕ × Log
  unfolding run
  stash_count log path =
      let (out, log') =
        run sys log path (codes "stash" ∷ codes "list" ∷ codes "--format=%H" ∷ []) in
      elim out [
        | err e ↦ (0, log')
        | ok text ↦
            (if eqb (trim_space text) [] then 0 else length (split (trim_space text) b'\n'), log')
      ]

  unfoldable pub origin_url : Log → Str → Str × Log
  unfolding run
  origin_url log path =
      let (out, log') =
        run sys log path (codes "config" ∷ codes "--get" ∷ codes "remote.origin.url" ∷ []) in
      elim out [ err e ↦ ([], log') | ok text ↦ (trim_space text, log') ]

  -- The time of FETCH_HEAD, zero where there is none.
  unfoldable pub fetch_time : Log → Str → ℕ × Log
  unfolding common_dir
  fetch_time log path =
      let (out, log') = common_dir sys log path in
      elim out [
        | err e ↦ (0, log')
        | ok dir ↦
            let head = join_path dir (codes "FETCH_HEAD") in
            (time_or_zero (sys.modified log' head), read_time head ∷ log')
      ]

  abbrev pub status_args : List Str
  status_args =
      codes "status"
      ∷ codes "--porcelain=v2"
      ∷ codes "--branch"
      ∷ codes "--untracked-files=normal"
      ∷ codes "-z"
      ∷ []

  abbrev pub with_commit : Option Commit → Status → Status
  with_commit none s = s
  with_commit (some c) s = record s { head = c.short; last_commit = c.time; subject = c.subject }

  abbrev pub status_of : Porcelain → Status
  status_of p = record {
    branch = p.branch;
    detached = p.detached;
    upstream = p.upstream;
    ahead = p.ahead;
    behind = p.behind;
    staged = p.staged;
    unstaged = p.unstaged;
    untracked = p.untracked;
    conflicted = p.conflicted;
    stashes = 0;
    head = [];
    last_commit = 0;
    subject = [];
    last_fetch = 0;
  }

  -- The rest of Inspect, once git status has answered: none of it makes the report fail.
  unfoldable pub report : TimeParser → UrlParser → Log → Str → Porcelain → (Remote × Status) × Log
  unfolding last_commit stash_count origin_url fetch_time
  report parse_time parse log path p =
      let (commit, log₁) = last_commit parse_time log path in
      let (stashes, log₂) = stash_count log₁ path in
      let (url, log₃) = origin_url log₂ path in
      let (fetched, log₄) = fetch_time log₃ path in
      (
        (
          if eqb url [] then bare else parse_remote_url parse url,
          record (with_commit commit (status_of p)) { stashes = stashes; last_fetch = fetched },
        ),
        log₄,
      )

  unfoldable pub inspect :
      TimeParser → UrlParser → Log → Str → Result CommandError (Remote × Status) × Log
  unfolding report run
  inspect parse_time parse log path =
      let (out, log') = run sys log path status_args in
      elim out [
        | err e ↦ (err e, log')
        | ok text ↦
            let (found, log'') = report parse_time parse log' path (parse_porcelain_v2 text) in
            (ok found, log'')
      ]
