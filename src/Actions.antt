-- ===== src/Actions.antt =====
-- internal/actions/actions.go: the write actions. What they write to the log is left out.
pub mod Targets
pub mod Claims
pub mod Init
mod Tests
use repo_man.Safepath.{
  slash, PathError, ExistingError, NameError, FileSystem, resolve, resolve_existing, valid_name,
  join_elements,
}
use repo_man.Git.Remote.{UrlParser, CloneError, parse_remote_url, validate_clone_url}
use repo_man.Git.System.{stat, lstat, Log, Found, missing, unreadable, file, directory, System}
use repo_man.Git.Commands.{CommandError, git_failed}
use repo_man.Git.Commands
use repo_man.Jobs.Registry.{Registry, Job, Busy, busy, start, finish}
use repo_man.Base.{
  ℕ, suc, ◌+◌, Bool, true, false, ◌||◌, List, [], ◌∷◌, ◌++◌, Option, none, some, Str, codes, Dict,
  Result, ok, err, ◌>>=◌, eqb, lookup, insert, delete, split, trim_space, if◌then◌else◌,
}

-- Service, with the number of the calls of onChange so far.
pub record Service : Type 0 where
  pub root : Str
  pub reg : Option Registry
  pub initing : Dict (Unit {0})
  pub changes : ℕ

unfoldable pub new_service : Str → Option Registry → Service
new_service root reg = record { root = root; reg = reg; initing = []; changes = 0 }

abbrev pub claim : Str → Dict (Unit {0}) → Option (Unit {0}) → Option (Dict (Unit {0}))
claim abs m (some u) = none
claim abs m none = some (insert abs tt m)

-- beginInit on the set of claims; none where the destination is claimed.
unfoldable pub begin_init : Str → Dict (Unit {0}) → Option (Dict (Unit {0}))
unfolding lookup insert
begin_init abs m = claim abs m (lookup abs m)

unfoldable pub end_init : Str → Dict (Unit {0}) → Dict (Unit {0})
unfolding delete
end_init abs m = delete abs m

pub data ActionError : Type 0 where
  bad_name : NameError → ActionError
  bad_parent : ExistingError → ActionError
  bad_path : PathError → ActionError
  bad_url : CloneError → ActionError
  busy_target exists system_failed root_target no_registry no_destination : ActionError
  git_error : CommandError → ActionError

abbrev pub valid : Option NameError → Result ActionError (Unit {0})
valid none = ok tt
valid (some e) = err (bad_name e)

abbrev pub parent_found : Result ExistingError (Str × Str) → Result ActionError (Str × Str)
parent_found (ok p) = ok p
parent_found (err e) = err (bad_parent e)

abbrev pub path_found : Result PathError (Str × Str) → Result ActionError (Str × Str)
path_found (ok p) = ok p
path_found (err e) = err (bad_path e)

-- The checks of InitRepo before the claim: the destination, and the relative path it returns.
unfoldable pub init_target : FileSystem → Str → Str → Str → Result ActionError (Str × Str)
unfolding valid_name resolve_existing resolve join_elements
init_target fs root parent name =
    valid (valid_name name)
    >>= (λ u. parent_found (resolve_existing fs root parent true))
    >>= (λ (p : Str × Str).
        path_found (resolve p.0 name)
        >>= (λ (d : Str × Str). ok (d.0, join_elements (p.1 ∷ d.1 ∷ []))))

-- git.Init and what follows it.
abbrev pub init_done : Str → Result CommandError Str → Result ActionError Str
init_done dest (ok out) = ok dest
init_done dest (err e) = err (git_error e)

-- onChange, after a success.
abbrev pub changed : Result ActionError Str → Service → Service
changed (ok dest) s = record s { changes = suc s.changes }
changed (err e) s = s

module _ (sys : System) where
  -- InitRepo while it holds the claim, on what os.Lstat found.
  unfoldable pub init_claimed : Log → Str → Str → Str → Found → Result ActionError Str × Log
  unfolding Commands.init
  init_claimed log abs dest branch missing =
      let (out, log') = Commands.init sys log abs branch in (init_done dest out, log')
  init_claimed log abs dest branch unreadable = (err system_failed, log)
  init_claimed log abs dest branch file = (err exists, log)
  init_claimed log abs dest branch directory = (err exists, log)

  -- InitRepo from beginInit on, with the deferred endInit.
  abbrev pub init_begun :
      Log
      → Str
      → Str
      → Str
      → Service
      → Option (Dict (Unit {0}))
      → Result ActionError Str × (Log × Service)
  init_begun log abs dest branch s none = (err busy_target, (log, s))
  init_begun log abs dest branch s (some m) =
      let (out, log') = init_claimed (lstat abs ∷ log) abs dest branch (sys.lstat log abs) in
      (out, (log', record (changed out s) { initing = end_init abs m }))

  abbrev pub init_at :
      Log
      → Str
      → Service
      → Result ActionError (Str × Str)
      → Result ActionError Str × (Log × Service)
  init_at log branch s (err e) = (err e, (log, s))
  init_at log branch s (ok (abs, dest)) =
      init_begun log abs dest branch s (begin_init abs s.initing)

  unfoldable pub init_repo :
      FileSystem → Log → Str → Str → Str → Service → Result ActionError Str × (Log × Service)
  unfolding init_target begin_init end_init init_claimed
  init_repo fs log parent name branch s = init_at log branch s (init_target fs s.root parent name)

-- The loop over the segments of DestFor.
unfoldable pub check_names : List Str → Option NameError
unfolding valid_name
check_names [] = none
check_names (s ∷ ss) = elim (valid_name s) [ some e ↦ some e | none ↦ check_names ss ]

abbrev pub named : Str → Option NameError → Result ActionError Str
named rel none = ok rel
named rel (some e) = err (bad_name e)

-- DestFor
unfoldable pub dest_for : UrlParser → Str → Result ActionError Str
unfolding parse_remote_url check_names join_elements split eqb
dest_for parse url =
    let r = parse_remote_url parse url in
    if eqb r.host [] || eqb r.owner [] || eqb r.name []
    then err no_destination
    else let rel = join_elements (r.host ∷ r.owner ∷ r.name ∷ []) in
      named rel (check_names (split rel slash))

-- What Clone hands to the job: the URL, the destination and its relative path.
pub record Target : Type 0 where
  pub url : Str
  pub abs : Str
  pub rel : Str

abbrev pub url_found : Result CloneError Str → Result ActionError Str
url_found (ok u) = ok u
url_found (err e) = err (bad_url e)

abbrev pub below_root : Str → Str × Str → Result ActionError Target
below_root url (abs, rel) =
    if eqb rel [] then err root_target else ok (record { url = url; abs = abs; rel = rel })

unfoldable pub choose_dest : UrlParser → Str → Str → Result ActionError Str
unfolding dest_for trim_space eqb
choose_dest parse url dest =
    if eqb (trim_space dest) [] then dest_for parse url else ok (trim_space dest)

-- The checks of Clone that ask nothing of the system.
unfoldable pub clone_target : UrlParser → Str → Str → Str → Result ActionError Target
unfolding validate_clone_url choose_dest resolve eqb
clone_target parse root url dest =
    url_found (validate_clone_url parse url)
    >>= (λ u. choose_dest parse u dest >>= (λ d. path_found (resolve root d) >>= below_root u))

abbrev pub job_started :
    Service → Target → Result Busy (Registry × Job) → Result ActionError (Target × Job) × Service
job_started s t (err e) = (err busy_target, s)
job_started s t (ok (r, j)) = (ok (t, j), record s { reg = some r })

abbrev pub job_label : Target → Str
job_label t = t.url ++ (codes " → " ++ t.rel)

unfoldable pub clone_start :
    ℕ
    → Str
    → Service
    → Target
    → Found
    → Option Registry
    → Result ActionError (Target × Job) × Service
unfolding start
clone_start now id s t missing none = (err no_registry, s)
clone_start now id s t missing (some r) =
    job_started s t (start now id (codes "clone") t.rel (job_label t) r)
clone_start now id s t unreadable reg = (err system_failed, s)
clone_start now id s t file reg = (err exists, s)
clone_start now id s t directory reg = (err exists, s)

abbrev pub failure_text : (CommandError → Str) → Result CommandError (Unit {0}) → Option Str
failure_text text (ok u) = none
failure_text text (err e) = some (text e)

module _ (sys : System) where
  abbrev pub clone_at :
      Log
      → ℕ
      → Str
      → Service
      → Result ActionError Target
      → Result ActionError (Target × Job) × (Log × Service)
  clone_at log now id s (err e) = (err e, (log, s))
  clone_at log now id s (ok t) =
      let (out, s') = clone_start now id s t (sys.lstat log t.abs) s.reg in
      (out, (lstat t.abs ∷ log, s'))

  -- Service.Clone, with the time and the id of the job.
  unfoldable pub clone_request :
      UrlParser
      → Log
      → ℕ
      → Str
      → Str
      → Str
      → Service
      → Result ActionError (Target × Job) × (Log × Service)
  unfolding clone_target clone_start
  clone_request parse log now id url dest s =
      clone_at log now id s (clone_target parse s.root url dest)

  -- The function of the job, and the end that the registry gives it; `text` is the error's text.
  unfoldable pub run_clone_job :
      (CommandError → Str) → Log → ℕ → Str → Target → Registry → Registry × Log
  unfolding Commands.clone finish
  run_clone_job text log now id t r =
      let (out, log') = Commands.clone sys log t.url t.abs in
      (finish now id (failure_text text out) r, log')
