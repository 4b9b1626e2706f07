-- ===== src/Jobs/Registry.antt =====
-- internal/jobs/jobs.go, Registry. The id that newID draws is an argument of `start`, and so is
-- the clock.
pub mod Exclusive
pub mod Retention
pub mod Listing
pub mod Starting
use repo_man.Jobs.Tail.{max_output, write, render}
use repo_man.Base.{
  ℕ, ◌-◌, ◌*◌, Bool, true, false, not, ◌&&◌, List, [], ◌∷◌, ◌++◌, Option, none, some, Str, Dict,
  Result, ok, err, eqb, lookup, insert, delete, retain, length, ltb, sort_by, leb, ◌==◌,
  if◌then◌else◌,
}

pub data State : Type 0 where
  running done failed : State

pub record Job : Type 0 where
  pub id : Str
  pub kind : Str
  pub target : Str
  pub label : Str
  pub state : State
  pub error : Str
  pub output : Str
  pub started : ℕ
  pub finished : ℕ

pub record Entry : Type 0 where
  pub job : Job
  pub buf : List ℕ

pub record Registry : Type 0 where
  pub ttl : ℕ
  pub max_jobs : ℕ
  pub jobs : Dict Entry

pub data Busy : Type 0 where
  busy : Busy

-- 30 minutes and 100 jobs, where the options give none.
unfoldable pub new_registry : ℕ → ℕ → Registry
new_registry ttl max_jobs = record {
  ttl = if ttl == 0 then 30 * 60_000_000_000 else ttl;
  max_jobs = if max_jobs == 0 then 100 else max_jobs;
  jobs = [];
}

unfoldable pub is_running : Job → Bool
is_running j = elim j.state [ running ↦ true | done ↦ false | failed ↦ false ]

unfoldable pub runs_on : Str → Entry → Bool
unfolding is_running eqb
runs_on target e = is_running e.job && eqb e.job.target target

-- The loop that looks for a running job of the target.
unfoldable pub is_busy : Str → Dict Entry → Bool
unfolding runs_on
is_busy target [] = false
is_busy target ((k, e) ∷ m) = if runs_on target e then true else is_busy target m

-- The finished jobs by the time of their start, the oldest first. Jobs that started at one instant
-- stand in the order of the map.
unfoldable pub insert_aged : Str × ℕ → List (Str × ℕ) → List (Str × ℕ)
insert_aged f [] = f ∷ []
insert_aged f (g ∷ fs) = if leb f.1 g.1 then f ∷ g ∷ fs else g ∷ insert_aged f fs

unfoldable pub finished_jobs : Dict Entry → List (Str × ℕ)
unfolding insert_aged is_running
finished_jobs [] = []
finished_jobs ((k, e) ∷ m) =
    if is_running e.job then finished_jobs m else insert_aged (k, e.job.started) (finished_jobs m)

unfoldable pub drop_finished : ℕ → List (Str × ℕ) → Dict Entry → Dict Entry
drop_finished max_jobs [] m = m
drop_finished max_jobs (f ∷ fs) m =
    let rest = drop_finished max_jobs fs (delete f.0 m) in
    if leb (length m) max_jobs then m else rest

unfoldable pub evict : ℕ → Dict Entry → Dict Entry
unfolding drop_finished finished_jobs
evict max_jobs m = if leb (length m) max_jobs then m else drop_finished max_jobs (finished_jobs m) m

abbrev pub new_job : ℕ → Str → Str → Str → Str → Job
new_job now id kind target label = record {
  id = id;
  kind = kind;
  target = target;
  label = label;
  state = running;
  error = [];
  output = [];
  started = now;
  finished = 0;
}

-- A job with its output, which is in the buffer while it runs.
unfoldable pub snapshot : Entry → Job
unfolding is_running render
snapshot e = if is_running e.job then record e.job { output = render e.buf } else e.job

unfoldable pub start : ℕ → Str → Str → Str → Str → Registry → Result Busy (Registry × Job)
unfolding is_busy evict snapshot
start now id kind target label r =
    if is_busy target r.jobs
    then err busy
    else let e : Entry = record { job = new_job now id kind target label; buf = [] } in
      ok (record r { jobs = evict r.max_jobs (insert id e r.jobs) }, snapshot e)

-- A write of the job's function.
unfoldable pub write_output : Str → List ℕ → Registry → Registry
unfolding write
write_output id p r = elim (lookup id r.jobs) [
  | none ↦ r
  | some e ↦ record r { jobs = insert id (record e { buf = write max_output e.buf p }) r.jobs }
]

-- The end of the job's function, with its error or its recovered panic.
unfoldable pub end_job : ℕ → Option Str → Entry → Entry
unfolding render
end_job now error e = record e {
  job = record e.job {
    finished = now;
    output = render e.buf;
    state = elim error [ none ↦ done | some msg ↦ failed ];
    error = elim error [ none ↦ e.job.error | some msg ↦ msg ];
  };
}

unfoldable pub finish : ℕ → Str → Option Str → Registry → Registry
unfolding end_job
finish now id error r = elim (lookup id r.jobs) [
  | none ↦ r
  | some e ↦ record r { jobs = insert id (end_job now error e) r.jobs }
]

unfoldable pub is_expired : ℕ → ℕ → Entry → Bool
unfolding is_running
is_expired ttl now e = not (is_running e.job) && ltb e.job.finished (now - ttl)

-- One tick of Run.
unfoldable pub expire : ℕ → Registry → Registry
unfolding is_expired
expire now r = record r { jobs = retain (λ e. not (is_expired r.ttl now e)) r.jobs }

unfoldable pub get : Str → Registry → Option Job
unfolding snapshot
get id r = elim (lookup id r.jobs) [ none ↦ none | some e ↦ some (snapshot e) ]

-- The running job of a target.
unfoldable pub find_active : Str → Dict Entry → Option Job
unfolding runs_on snapshot
find_active target [] = none
find_active target ((k, e) ∷ m) =
    if runs_on target e then some (snapshot e) else find_active target m

unfoldable pub active : Str → Registry → Option Job
unfolding find_active
active target r = find_active target r.jobs

-- List: the jobs of the map, then the newest first.
unfoldable pub snapshots : Dict Entry → List Job
unfolding snapshot
snapshots [] = []
snapshots ((k, e) ∷ m) = snapshot e ∷ snapshots m

abbrev pub started_after : Job → Job → Bool
started_after i j = ltb j.started i.started

unfoldable pub list_jobs : Registry → List Job
unfolding snapshots sort_by
list_jobs r = sort_by started_after (snapshots r.jobs)
