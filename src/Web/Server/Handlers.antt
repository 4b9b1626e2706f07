-- ===== src/Web/Server/Handlers.antt =====
-- internal/web/server.go: the handlers behind the gate. Main.go wires onChange of the actions to
-- ScanNow.
use repo_man.Actions.{ActionError, Service, Target, clone_request, init_repo}
use repo_man.Auth.Login.{enabled}
use repo_man.Auth.Login.Body.{value_of}
use repo_man.Git.Commands.{CommandError}
use repo_man.Git.System.{Log}
use repo_man.Index.{Index, scan_now, fetch_now}
use repo_man.Index.Fetching.{fetch_repo, pull_repo}
use repo_man.Jobs.Registry.{Job, Registry, get, list_jobs}
use repo_man.Safepath.{ExistingError, resolve_existing}
use repo_man.Web.Server.{
  Request, no_such_job, unresolved_path, git_failed, refused, field, a_job, job_list, a_snapshot,
  Reply, Server, World, status_for, write_json, write_error, rendered, decode,
}
use repo_man.Base.{
  true, false, List, [], ◌∷◌, Option, none, some, Str, Dict, codes, Result, ok, err, eqb,
  trim_space, if◌then◌else◌,
}

abbrev pub Handled : Type 0
Handled = Reply × Server

abbrev jobs_of : Option Registry → List Job
jobs_of none = []
jobs_of (some reg) = list_jobs reg

abbrev find_job : Str → Option Registry → Option Job
find_job id none = none
find_job id (some reg) = get id reg

-- handleIndex and handleTreeFragment
unfoldable pub handle_index : World → Server → Reply
unfolding rendered list_jobs enabled
handle_index w s = rendered (
    w.template (codes "page.html") (record {
      title = codes "repo-man";
      snapshot = s.ix.snap;
      jobs = jobs_of s.act.reg;
      config = s.cfg;
      auth_enabled = enabled s.auth;
      now = w.now;
    }))

unfoldable pub handle_tree_fragment : World → Server → Reply
unfolding rendered list_jobs
handle_tree_fragment w s = rendered (
    w.template (codes "fragment.html") (record {
      title = [];
      snapshot = s.ix.snap;
      jobs = jobs_of s.act.reg;
      config = s.cfg;
      auth_enabled = false;
      now = w.now;
    }))

unfoldable pub handle_api_tree : Server → Reply
unfolding write_json
handle_api_tree s = write_json 200 (a_snapshot s.ix.snap)

unfoldable pub handle_refresh : Request → Server → Handled
unfolding write_json value_of eqb scan_now fetch_now
handle_refresh r s =
    let ix : Index =
      if eqb (value_of (codes "fetch") r.query) (codes "1")
      then fetch_now s.ix
      else scan_now s.ix in
    (write_json 202 (field (codes "status") (codes "queued")), record s { ix = ix })

-- The end of handleFetchRepo and handlePullRepo.
unfoldable pub synced : Str → Server → Result CommandError Str × (Index × Log) → Handled
unfolding write_error write_json
synced word s (err e, (ix, log)) = (write_error 502 (git_failed e), record s { ix = ix; log = log })
synced word s (ok out, (ix, log)) =
    (write_json 200 (field (codes "status") word), record s { ix = ix; log = log })

unfoldable pub fetch_at : World → Server → Result ExistingError (Str × Str) → Handled
unfolding synced fetch_repo
fetch_at w s (err e) = (write_error 400 (unresolved_path e), s)
fetch_at w s (ok (abs, rel)) = synced (codes "fetched") s (fetch_repo w.system s.log abs s.ix)

unfoldable pub pull_at : World → Server → Result ExistingError (Str × Str) → Handled
unfolding synced pull_repo
pull_at w s (err e) = (write_error 400 (unresolved_path e), s)
pull_at w s (ok (abs, rel)) = synced (codes "pulled") s (pull_repo w.system s.log abs s.ix)

-- The checkout that a body names.
unfoldable pub named_checkout : World → Server → Dict Str → Result ExistingError (Str × Str)
unfolding value_of resolve_existing
named_checkout w s d = resolve_existing w.files s.cfg.root (value_of (codes "path") d) true

abbrev pub path_field : List Str
path_field = codes "path" ∷ []

unfoldable pub handle_fetch_repo : World → Request → Server → Handled
unfolding decode fetch_at named_checkout
handle_fetch_repo w r s = elim (decode w path_field r) [
  | err e ↦ (write_error 400 e, s)
  | ok d ↦ fetch_at w s (named_checkout w s d)
]

unfoldable pub handle_pull_repo : World → Request → Server → Handled
unfolding decode pull_at named_checkout
handle_pull_repo w r s = elim (decode w path_field r) [
  | err e ↦ (write_error 400 e, s)
  | ok d ↦ pull_at w s (named_checkout w s d)
]

-- The end of handleInit. InitRepo calls onChange where it succeeds.
unfoldable pub inited : Server → Result ActionError Str × (Log × Service) → Handled
unfolding write_error write_json status_for scan_now
inited s (err e, (log, act)) =
    (write_error (status_for e) (refused e), record s { act = act; log = log })
inited s (ok rel, (log, act)) = (
  write_json 201 (field (codes "path") rel),
  record s { act = act; log = log; ix = scan_now s.ix },
)

unfoldable pub handle_init : World → Request → Server → Handled
unfolding decode inited init_repo value_of trim_space
handle_init w r s = elim (decode w (codes "parent" ∷ codes "name" ∷ codes "branch" ∷ []) r) [
  | err e ↦ (write_error 400 e, s)
  | ok d ↦ inited s (
      init_repo w.system w.files s.log (value_of (codes "parent") d)
        (trim_space (value_of (codes "name") d)) (trim_space (value_of (codes "branch") d)) s.act)
]

-- The end of handleClone.
unfoldable pub cloned : Server → Result ActionError (Target × Job) × (Log × Service) → Handled
unfolding write_error write_json status_for
cloned s (err e, (log, act)) =
    (write_error (status_for e) (refused e), record s { act = act; log = log })
cloned s (ok (t, j), (log, act)) = (write_json 202 (a_job j), record s { act = act; log = log })

unfoldable pub handle_clone : World → Request → Server → Handled
unfolding decode cloned clone_request value_of trim_space
handle_clone w r s = elim (decode w (codes "url" ∷ codes "dest" ∷ []) r) [
  | err e ↦ (write_error 400 e, s)
  | ok d ↦ cloned s (
      clone_request w.system w.remote_parser s.log w.now w.job_id
        (trim_space (value_of (codes "url") d)) (trim_space (value_of (codes "dest") d)) s.act)
]

unfoldable pub handle_jobs : Server → Reply
unfolding write_json list_jobs
handle_jobs s = write_json 200 (job_list (jobs_of s.act.reg))

abbrev job_found : Option Job → Reply
job_found none = write_error 404 no_such_job
job_found (some j) = write_json 200 (a_job j)

-- handleJob, with the id in the path.
unfoldable pub handle_job : Str → Server → Reply
unfolding write_error write_json get
handle_job id s = job_found (find_job id s.act.reg)
