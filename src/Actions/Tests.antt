-- ===== src/Actions/Tests.antt =====
-- The theorems on internal/actions at concrete inputs.
use repo_man.Actions.{Service, new_service, Target, begin_init, clone_request, init_repo, job_label}
use repo_man.Actions.Targets.{IsStarted, clone_request-IsStarted}
use repo_man.Actions.Claims.{Calls, Reach, Step, count_of, Reach-exclusive}
use repo_man.Actions.Init.{IsReleased, init_repo-IsReleased}
use repo_man.Git.System.{System, Log, lstat, missing}
use repo_man.Git.Remote.{UrlParser}
use repo_man.Jobs.Tail.{settle}
use repo_man.Jobs.Registry.{Registry, new_registry, Job, new_job}
use repo_man.Safepath.{clean, FileSystem, normalize, check_segments, contains_path, join_path}
use repo_man.Base.{
  subst, IsDistinct, ◌≤◌, ◌≡◌, refl, ◌↔◌, true, [], ◌∷◌, none, some, Str, codes, ok, eqb, eqb-ne,
  insert, any, last_part,
}

abbrev no_url : UrlParser
no_url s = none

-- A system without files, in which every process succeeds.
abbrev bare_system : System
bare_system = record {
  stat = λ log p. missing;
  lstat = λ log p. missing;
  read_dir = λ log p. none;
  make_dirs = λ log p. true;
  modified = λ log p. none;
  git = λ log dir args. record { stdout = []; stderr = []; failure = none };
}

abbrev srv : Str
srv = codes "/srv"

abbrev service : Service
service = new_service srv (some (new_registry 5 5))

abbrev target : Target
target = record { url = codes "git@github.com:jo/x"; abs = codes "/srv/y"; rel = codes "y" }

abbrev job : Job
job = new_job 7 (codes "i") (codes "clone") (codes "y") (job_label target)

abbrev after_clone : Service
after_clone = record service {
  reg =
      some (record (new_registry 5 5) { jobs = (codes "i", record { job = job; buf = [] }) ∷ [] });
}

cloned :
    clone_request bare_system no_url [] 7
      (codes "i")
      (codes "git@github.com:jo/x")
      (codes "y")
      service
    ≡ (ok (target, job), (lstat (codes "/srv/y") ∷ [], after_clone))
unfolding clone_request new_service new_registry any normalize check_segments contains_path
    join_path settle insert last_part
cloned = refl

no_jobs : (r : Registry) → service.reg ≡ some r → IsDistinct r.jobs
unfolding new_service new_registry
no_jobs r h = let e : new_registry 5 5 ≡ r = cc in subst (λ (x : Registry). IsDistinct x.jobs) e tt

clone_request-IsStarted_example :
    IsStarted bare_system [] (codes "srv") (codes "i") service target job after_clone
    × (◌≡◌ {A = Log} (lstat (codes "/srv/y") ∷ []) (lstat (codes "/srv/y") ∷ []))
unfolding new_service clean eqb
clone_request-IsStarted_example =
    clone_request-IsStarted bare_system no_url [] _ 7 (codes "i") (codes "git@github.com:jo/x")
      (codes "y") (codes "srv") service after_clone target job refl (eqb-ne _ _ refl) no_jobs cloned

abbrev one_call : Calls
one_call = record { initing = (codes "/r/a", tt) ∷ []; holders = codes "/r/a" ∷ [] }

Reach-exclusive_example :
    (count_of (codes "/r/a") (codes "/r/a" ∷ []) ≤ 1)
    × ((begin_init (codes "/r/a") one_call.initing ≡ none)
        ↔ (count_of (codes "/r/a") (codes "/r/a" ∷ []) ≡ 1))
unfolding begin_init
Reach-exclusive_example =
    Reach-exclusive {c = one_call}
      (Reach.next Reach.here (Step.enter (codes "/r/a") one_call.initing refl)) (codes "/r/a")

abbrev plain_files : FileSystem
plain_files = record { eval_symlinks = λ p. some p; stat_is_dir = λ p. some true }

init_repo-IsReleased_example :
    let r = init_repo bare_system plain_files [] [] (codes "new") (codes "main") service in
    IsReleased service r.1.1 r.0
init_repo-IsReleased_example =
    init_repo-IsReleased bare_system plain_files [] [] (codes "new") (codes "main") service
