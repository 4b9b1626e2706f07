-- ===== src/Index/Scanning.antt =====
-- internal/index/index.go: scan, with the snapshot that it publishes, and reportInspectFailures.
use repo_man.Index.{Index, ghosts_of, warnings_of}
use repo_man.Git.Commands.{CommandError}
use repo_man.Git.Inspect.{TimeParser, bare, inspect}
use repo_man.Git.Remote.{UrlParser}
use repo_man.Git.System.{System}
use repo_man.Model.{Remote, Status, Repo}
use repo_man.Scan.{Candidate, Context, Fault, Files, Walk, WalkError, walk}
use repo_man.Tree.Assembly.{build}
use repo_man.Tree.Build.{Input}
use repo_man.Base.{
  ℕ, suc, ◌-◌, Bool, false, not, List, [], ◌∷◌, ◌++◌, map, Str, codes, Result, ok, err, ℤ, pos,
  negsuc, eqb, length, keep, if◌then◌else◌, ◌==◌,
}

abbrev pub max_inspect_warnings : ℕ
max_inspect_warnings = 5

abbrev pub inspect_warning : Repo → Str
inspect_warning r = codes "could not inspect " ++ (r.rel ++ (codes ": " ++ r.error))

-- `digits` is the decimal form of a number.
abbrev pub more_warning : (ℕ → Str) → ℕ → Str
more_warning digits n =
    codes "… and " ++ (digits n ++ codes " more checkout(s) could not be inspected")

-- The last loop of reportInspectFailures, with the number of all failures and of the warnings so
-- far.
unfoldable pub warn_each : (ℕ → Str) → ℕ → ℕ → List Repo → List Str
warn_each digits total n [] = []
warn_each digits total n (r ∷ rs) =
    let rest = warn_each digits total (suc n) rs in
    if n == max_inspect_warnings
    then more_warning digits (total - max_inspect_warnings) ∷ []
    else inspect_warning r ∷ rest

abbrev pub is_failed : Repo → Bool
is_failed r = not (eqb r.error [])

unfoldable pub report_inspect_failures : (ℕ → Str) → List Repo → List Str
unfolding warn_each keep eqb
report_inspect_failures digits repos =
    let failed = keep is_failed repos in warn_each digits (length failed) 0 failed

-- What a pass of scan meets. `system` is the system as the goroutine of a checkout meets it, and
-- `cancelled` is ctx.Err once all of them have ended.
pub record Pass : Type 0 where
  pub files : Files
  pub context : Context
  pub cancelled : Bool
  pub system : Str → System
  pub parse_time : TimeParser
  pub parse_url : UrlParser
  pub fault_text : Fault → Str
  pub command_text : CommandError → Str
  pub digits : ℕ → Str
  pub now : ℕ

abbrev no_status : Status
no_status = record {
  branch = [];
  detached = false;
  upstream = [];
  ahead = pos 0;
  behind = pos 0;
  staged = 0;
  unstaged = 0;
  untracked = 0;
  conflicted = 0;
  stashes = 0;
  head = [];
  last_commit = 0;
  subject = [];
  last_fetch = 0;
}

abbrev pub with_report : (CommandError → Str) → Repo → Result CommandError (Remote × Status) → Repo
with_report text r (ok (remote, status)) = record r { remote = remote; status = status }
with_report text r (err e) = record r { error = text e }

-- The goroutine of one checkout.
unfoldable pub inspect_candidate : Pass → Candidate → Repo
unfolding inspect
inspect_candidate p c =
    let r : Repo = record {
      path = c.path;
      rel = c.rel;
      name = c.name;
      is_worktree = c.is_worktree;
      main_path = c.main_path;
      remote = bare;
      status = no_status;
      error = [];
    } in
    with_report p.command_text r (inspect (p.system c.path) p.parse_time p.parse_url [] c.path).0

unfoldable pub scan_warnings : Pass → Index → Walk → List Repo → List Str
unfolding report_inspect_failures warnings_of
scan_warnings p ix w repos =
    map p.fault_text w.errs
    ++ (report_inspect_failures p.digits repos ++ warnings_of ix.cfg.owners ix.ghost_warn)

-- What scan gives to Build.
unfoldable pub pass_input : Index → Walk → List Repo → Input
unfolding ghosts_of
pass_input ix w repos = record {
  root = ix.cfg.root;
  owners = ix.cfg.owners;
  repos = repos;
  dirs = w.dirs;
  ghosts = ghosts_of ix.cfg.owners ix.ghosts;
}

-- scan from the end of the inspections on.
unfoldable pub publish : Pass → Index → Walk → List Repo → Index
unfolding scan_warnings build pass_input
publish p ix w repos = record ix {
  snap = record {
    tree = build (pass_input ix w repos);
    owners = ix.cfg.owners;
    scanned_at = p.now;
    fetched_at = ix.fetched_at;
    listed_at = ix.listed_at;
    warnings = scan_warnings p ix w repos;
  };
}

-- A negative maxDepth admits no level.
unfoldable pub levels : ℤ → ℕ
levels (pos n) = n
levels (negsuc n) = 0

abbrev pub scan_walked : Pass → Index → Result WalkError Walk → Index
scan_walked p ix (err e) = ix
scan_walked p ix (ok w) =
    if p.cancelled then ix else publish p ix w (map (inspect_candidate p) w.repos)

unfoldable pub scan : Pass → Index → Index
unfolding walk publish inspect_candidate levels
scan p ix = scan_walked p ix (walk p.files p.context (levels ix.cfg.max_depth) ix.cfg.root)
